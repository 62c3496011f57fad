-- ===== src/HostAndPort/Parse.antt =====
-- `fromString` and `toString` of HostAndPort.h.
use ezbake_common.Common.{
  ℕ, ◌+◌, ◌≤◌, ◌≡◌, ◌⊎◌, refl, ◌∙◌, inl, inr, [], ◌∷◌, ◌++◌, none, some, Bytes, ok, throw, ◌>>=◌,
  >>=-eq_ok, arith, Option-cases, Bool-cases, ltb,
}
use ezbake_common.HostAndPort.{
  HostAndPort, delim, max_port, from_host, from_parts, from_string, to_string,
}
use ezbake_common.Text.{LexicalCast}
use ezbake_common.Text
use ezbake_common.Text.Find.{Lacks, Lacks-of_find, find-append, find-some, take-append, drop-append}

pub from_parts-eq_ok :
    (host : Bytes) (port : ℕ) (a : HostAndPort)
    → from_parts host port ≡ ok a
    → (port ≤ max_port) × (a ≡ record { host = host; port = some port })
unfolding from_parts
from_parts-eq_ok host port a h = elim (Bool-cases (ltb max_port port)) [
  | inl e ↦ absurd (ground arith)
  | inr e ↦ (ground arith, ground arith)
]

module _ (cast : LexicalCast) where
  -- What `fromString` does with a host, a colon and the text of a port.
  from_string-append :
      (host rest : Bytes)
      → Lacks delim host
      → from_string cast (host ++ delim ∷ rest)
        ≡ (cast.to_unsigned_int rest >>= λ port. from_parts host port)
  unfolding from_string
  from_string-append host rest lacks =
      rw (find-append delim host rest lacks, from_string)
        (rw (drop-append host rest delim, take-append))

  -- A host with a port that was accepted is read back from its print, unless the host holds a
  -- colon.
  pub from_string-to_string :
      (host : Bytes) (port : ℕ) (a : HostAndPort)
      → Lacks delim host
      → from_parts host port ≡ ok a
      → from_string cast (to_string a) ≡ ok a
  unfolding to_string
  from_string-to_string host port a lacks h =
      let (bound, e) = from_parts-eq_ok host port a h in
      rw e (
        from_string-append host (Text.to_string port) lacks
        ∙ rw (cast.to_unsigned_int-to_string port (omega arith)) (rw e at h))

  -- Without a port the print ends in the colon, and is refused.
  pub from_string-to_string_no_port :
      (host : Bytes)
      → Lacks delim host
      → from_string cast (to_string (from_host host)) ≡ throw cast.refusal
  unfolding to_string from_host
  from_string-to_string_no_port host lacks =
      from_string-append host [] lacks ∙ rw cast.to_unsigned_int-nil

  -- What `fromString` accepts: a text without a colon is a host; else the host ends at the first
  -- colon, and the rest is a port in range.
  pub from_string-eq_ok :
      (s : Bytes) (a : HostAndPort)
      → from_string cast s ≡ ok a
      → Lacks delim a.host
        × (((a.port ≡ none) × (s ≡ a.host))
            ⊎ ((port : ℕ) × (rest : Bytes) × (a.port ≡ some port)
                × (port ≤ max_port)
                × (s ≡ a.host ++ delim ∷ rest)
                × (cast.to_unsigned_int rest ≡ ok port)))
  unfolding from_string
  from_string-eq_ok s a h = elim (Option-cases (Text.find delim s)) [
    | inl e ↦
        let r : ok (from_host s) ≡ ok a = rw (e, from_string) at h in
        let q : from_host s ≡ a = cc in rw (← q) (Lacks-of_find delim s e, inl (refl, refl))
    | inr (i, e) ↦
        let rest = Text.drop (i + 1) s in
        let host = Text.take i s in
        let (lacks, split) = find-some delim s i e in
        let (port, read, made) =
          >>=-eq_ok (cast.to_unsigned_int rest) (λ port. from_parts host port)
            (rw (e, from_string) at h) in
        let (bound, q) = from_parts-eq_ok host port a made in
        rw q (lacks, inr (port, rest, refl, bound, split, read))
  ]
