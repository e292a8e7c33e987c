-- ===== src/Auth/Hashed.antt =====
-- A password that was hashed is valid.
use Prim.Native.Char.{code}
use birthub_360_innovation.Base.{
  ℕ, zero, suc, ◌/◌, ◌%◌, ltb, String, Bool, true, false, ◌&&◌, not, List, [], ◌∷◌, ◌≡◌, refl, ap,
  ◌∙◌, inl, inr, arith, ◌==◌, Bool-cases, str_eq, str_append, decimal,
}
use birthub_360_innovation.Base.Digits.{digit, digits}
use text.Mathlib.TextLemmas.{nil-append, cons-append, append_assoc as str_append_assoc}
use birthub_360_innovation.Auth.{Host}
use birthub_360_innovation.Auth.Password.{
  starts_with, split_dollar, is_bcrypt_hash, is_scrypt_hash, same_bytes, verify_scrypt_hash,
  hash_password, verify_password_hash,
}

-- The text has no dollar sign.
unfoldable pub has_no_dollar : String → Bool
has_no_dollar String.[] = true
has_no_dollar (String.◌∷◌ c text) = not (code c == 36) && has_no_dollar text

no_dollar-append :
    (a b : String)
    → has_no_dollar a ≡ true
    → has_no_dollar b ≡ true
    → has_no_dollar (str_append a b) ≡ true
unfolding has_no_dollar
no_dollar-append String.[] b h k = rw (nil-append b) k
no_dollar-append (String.◌∷◌ c a) b h k =
    rw (cons-append c a b, has_no_dollar)
      (ground (arith, h, no_dollar-append a b (ground (arith, h)) k))

no_dollar-digit : (n : ℕ) → has_no_dollar (digit n) ≡ true
unfolding has_no_dollar
no_dollar-digit zero = refl
no_dollar-digit (suc zero) = refl
no_dollar-digit (suc (suc zero)) = refl
no_dollar-digit (suc (suc (suc zero))) = refl
no_dollar-digit (suc (suc (suc (suc zero)))) = refl
no_dollar-digit (suc (suc (suc (suc (suc zero))))) = refl
no_dollar-digit (suc (suc (suc (suc (suc (suc zero)))))) = refl
no_dollar-digit (suc (suc (suc (suc (suc (suc (suc zero))))))) = refl
no_dollar-digit (suc (suc (suc (suc (suc (suc (suc (suc zero)))))))) = refl
no_dollar-digit (suc (suc (suc (suc (suc (suc (suc (suc (suc n))))))))) = refl

no_dollar-digits : (fuel n : ℕ) → has_no_dollar (digits fuel n) ≡ true
unfolding digits
no_dollar-digits zero n = no_dollar-digit (n % 10)
no_dollar-digits (suc fuel) n = elim (Bool-cases (ltb n 10)) [
  | inl one ↦ rw (one, digits) (no_dollar-digit n)
  | inr more ↦
      rw (more, digits)
        (no_dollar-append (digits fuel (n / 10)) (digit (n % 10)) (no_dollar-digits fuel (n / 10))
          (no_dollar-digit (n % 10)))
]

-- A part up to the next dollar sign.
split_dollar-append :
    (a rest : String)
    → has_no_dollar a ≡ true
    → split_dollar (str_append a (str_append "$" rest)) ≡ a ∷ split_dollar rest
unfolding split_dollar has_no_dollar
split_dollar-append String.[] rest h =
    rw (nil-append (str_append "$" rest), cons-append "$" "" rest, nil-append rest) refl
split_dollar-append (String.◌∷◌ c a) rest h = elim (Bool-cases (code c == 36)) [
  | inl dollar ↦ absurd (cc (rw (dollar, has_no_dollar) at h))
  | inr other ↦
      rw
        (
          cons-append c a (str_append "$" rest),
          split_dollar,
          other,
          split_dollar-append a rest (rw (other, has_no_dollar) at h),
        )
        (rw (cons-append c "" a, nil-append a) refl)
]

-- The last part.
split_dollar-last : (a : String) → has_no_dollar a ≡ true → split_dollar a ≡ a ∷ []
unfolding split_dollar has_no_dollar
split_dollar-last String.[] h = refl
split_dollar-last (String.◌∷◌ c a) h = elim (Bool-cases (code c == 36)) [
  | inl dollar ↦ absurd (cc (rw (dollar, has_no_dollar) at h))
  | inr other ↦
      rw (split_dollar, other, split_dollar-last a (rw (other, has_no_dollar) at h))
        (rw (cons-append c "" a, nil-append a) refl)
]

same_bytes_refl : (bytes : List ℕ) → same_bytes bytes bytes ≡ true
same_bytes_refl [] = refl
same_bytes_refl (b ∷ bs) = ground (arith, same_bytes_refl bs)

starts_with-append : (prefix rest : String) → starts_with prefix (str_append prefix rest) ≡ true
unfolding starts_with
starts_with-append String.[] rest = refl
starts_with-append (String.◌∷◌ c prefix) rest =
    rw (cons-append c prefix rest, starts_with) (ground (arith, starts_with-append prefix rest))

-- No hash by scrypt looks like one by bcrypt.
not_bcrypt : (rest : String) → is_bcrypt_hash (str_append "scrypt$" rest) ≡ false
unfolding is_bcrypt_hash starts_with
not_bcrypt rest = rw (cons-append "s" "crypt$" rest) refl

split_dollar-stored :
    (rounds salt key : String)
    → has_no_dollar rounds ≡ true
    → has_no_dollar salt ≡ true
    → has_no_dollar key ≡ true
    → split_dollar (
        str_append "scrypt$"
          (str_append rounds (str_append "$" (str_append salt (str_append "$" key)))))
      ≡ "scrypt" ∷ rounds ∷ salt ∷ key ∷ []
unfolding has_no_dollar
split_dollar-stored rounds salt key r s k =
    ap split_dollar (
      str_append_assoc "scrypt" "$"
        (str_append rounds (str_append "$" (str_append salt (str_append "$" key)))))
    ∙ split_dollar-append "scrypt"
        (str_append rounds (str_append "$" (str_append salt (str_append "$" key)))) refl
    ∙ ap (λ l. "scrypt" ∷ l)
        (split_dollar-append rounds (str_append salt (str_append "$" key)) r
          ∙ ap (λ l. rounds ∷ l)
              (split_dollar-append salt key s ∙ ap (λ l. salt ∷ l) (split_dollar-last key k)))

-- Where bcrypt is not there: if the derived key is read from base64url as it was written, and neither the salt nor the derived
-- key, as texts, is empty or has a dollar sign, then the password that was hashed is valid for its hash.
pub verify_password_hash-hash_password :
    (host : Host) (salt password : String) (salt_rounds minimum : ℕ)
    → host.has_bcrypt ≡ false
    → host.from_base64url (host.to_base64url (host.scrypt password salt))
      ≡ host.scrypt password salt
    → has_no_dollar salt ≡ true
    → has_no_dollar (host.to_base64url (host.scrypt password salt)) ≡ true
    → str_eq salt "" ≡ false
    → str_eq (host.to_base64url (host.scrypt password salt)) "" ≡ false
    → (verify_password_hash host password (hash_password host salt password salt_rounds) minimum).0
      ≡ true
unfolding verify_password_hash hash_password verify_scrypt_hash is_scrypt_hash decimal
verify_password_hash-hash_password host salt password salt_rounds minimum no_bcrypt reads salted
      keyed some_salt some_key =
    let key = host.to_base64url (host.scrypt password salt) in
    let rest =
      str_append (decimal salt_rounds) (str_append "$" (str_append salt (str_append "$" key))) in
    let parts =
      split_dollar-stored (decimal salt_rounds) salt key (no_dollar-digits salt_rounds salt_rounds)
        salted keyed in
    let scrypted : is_scrypt_hash (str_append "scrypt$" rest) ≡ true =
      starts_with-append "scrypt$" rest in
    let valid : verify_scrypt_hash host password (str_append "scrypt$" rest) ≡ true =
      rw (verify_scrypt_hash, parts, some_salt, some_key, reads)
        (same_bytes_refl (host.scrypt password salt)) in
    rw (no_bcrypt, hash_password, verify_password_hash, not_bcrypt rest, scrypted) valid
