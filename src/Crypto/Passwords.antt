-- ===== src/Crypto/Passwords.antt =====
-- When a password is accepted.
use endless_peak_server.Shared.{
  ℕ, ◌≤◌, ◌≡◌, refl, sym, ap, ◌∙◌, ◌↔◌, true, leb, List, [], ◌∷◌, none, some, length, take,
  take_all, arith, Option-cases, inl, inr, some-ne-none,
}
use mathlib.Core.Option.{some-injective}
use endless_peak_server.Crypto.{
  OpenSsl, IsDocumented, hash, verify_hash, same_bytes, hash_length, num_iterations, failure,
  generate_salt, salt_of, unsupported,
}

same_bytes_iff : (xs ys : List ℕ) → (same_bytes xs ys ≡ true) ↔ (xs ≡ ys)
unfolding same_bytes
same_bytes_iff [] [] = ((λ e. refl), (λ e. refl))
same_bytes_iff [] (y ∷ ys) = ((λ e. cc), (λ e. cc))
same_bytes_iff (x ∷ xs) [] = ((λ e. cc), (λ e. cc))
same_bytes_iff (x ∷ xs) (y ∷ ys) =
    let (into, from) = same_bytes_iff xs ys in
    ((λ e. ground (arith, into)), (λ e. ground (arith, from, tail_of e)))
  where
    tail_of : x ∷ xs ≡ y ∷ ys → xs ≡ ys
    tail_of e = cc

module _ (ssl : OpenSsl) (doc : IsDocumented ssl) where
  -- Against an expected hash of at least 32 bytes, a password is accepted exactly when its hash is
  -- the first 32 of them; what follows is not looked at.
  pub verify_hash_iff :
      (password expected salt : List ℕ)
      → hash_length ≤ length expected
      → (verify_hash ssl password expected salt ≡ some true)
        ↔ (hash ssl password salt ≡ some (take hash_length expected))
  unfolding verify_hash
  verify_hash_iff password expected salt long = elim (Option-cases (hash ssl password salt)) [
    | inl e ↦ rw (e, verify_hash) ((λ h. cc), (λ h. absurd (some-ne-none _ (sym h))))
    | inr (bytes, e) ↦
        let size : length bytes ≡ hash_length =
          doc.filled password salt num_iterations hash_length bytes (unfold hash in e) in
        let room : leb (length bytes) (length expected) ≡ true = ground arith in
        let (into, from) = same_bytes_iff bytes (take hash_length expected) in
        rw (e, verify_hash, room, size)
          (
            (λ h. ap some (into (some-injective _ _ h))),
            (λ h. ap some (from (some-injective _ _ h))),
          )
  ]

  -- A hash that was stored for a password and a salt is accepted for them.
  pub verify_hash-hash :
      (password salt bytes : List ℕ)
      → hash ssl password salt ≡ some bytes
      → verify_hash ssl password bytes salt ≡ some true
  verify_hash-hash password salt bytes e =
      let size : length bytes ≡ hash_length =
        doc.filled password salt num_iterations hash_length bytes (unfold hash in e) in
      (verify_hash_iff password bytes salt (omega arith)).1
        (e ∙ ap some (sym (take_all hash_length bytes (omega arith))))

-- `GenerateSalt` reports a failure exactly when `RAND_bytes` returns -1.
pub generate_salt_fails :
    (ssl : OpenSsl) (n : ℕ) → (generate_salt ssl n ≡ none) ↔ ((ssl.rand_bytes n).0 ≡ unsupported)
unfolding generate_salt salt_of
generate_salt_fails ssl n = ground arith

-- When `RAND_bytes` fails with 0, the buffer it was given is returned as a salt.
pub generate_salt_failure :
    (ssl : OpenSsl) (n : ℕ)
    → (ssl.rand_bytes n).0 ≡ failure
    → generate_salt ssl n ≡ some (ssl.rand_bytes n).1
unfolding generate_salt salt_of
generate_salt_failure ssl n e = ground (arith, e)
