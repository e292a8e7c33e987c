-- ===== src/Auth/Password.antt =====
-- apps/api/src/modules/auth/crypto.ts: the hash of a password, by bcrypt where its module is there and by
-- scrypt otherwise, and the check of a password against a hash of either kind or an old SHA-256 one.
use Prim.Native.Char.{code}
use birthub_360_innovation.Base.{
  ℕ, zero, suc, ◌*◌, ◌^◌, String, Bool, true, false, ◌&&◌, ◌||◌, List, [], ◌∷◌, ltb, ◌==◌,
  if◌then◌else◌, str_eq, str_append, decimal,
}
use birthub_360_innovation.Base.Int.{pos, negsuc, Number, finite}
use birthub_360_innovation.Auth.{Host}

-- `text.startsWith(prefix)`
unfoldable pub starts_with : String → String → Bool
starts_with String.[] text = true
starts_with (String.◌∷◌ c prefix) String.[] = false
starts_with (String.◌∷◌ c prefix) (String.◌∷◌ d text) = code c == code d && starts_with prefix text

abbrev pub begin_part : String → List String → List String
begin_part c [] = c ∷ []
begin_part c (part ∷ parts) = str_append c part ∷ parts

-- `text.split("$")`
unfoldable pub split_dollar : String → List String
split_dollar String.[] = "" ∷ []
split_dollar (String.◌∷◌ c text) =
    let parts = split_dollar text in
    if code c == 36 then "" ∷ parts else begin_part (String.◌∷◌ c String.[]) parts

-- An element of an array, where what is not there is taken for the empty text.
abbrev pub part : ℕ → List String → String
part i [] = ""
part zero (x ∷ xs) = x
part (suc i) (x ∷ xs) = part i xs

unfoldable pub is_bcrypt_hash : String → Bool
is_bcrypt_hash value =
    starts_with "$2a$" value || starts_with "$2b$" value || starts_with "$2y$" value

unfoldable pub is_scrypt_hash : String → Bool
is_scrypt_hash value = starts_with "scrypt$" value

-- `cost !== null && cost < minimum`, for a cost that is null where it is not finite.
abbrev pub is_below : Number → ℕ → Bool
is_below (finite (pos m) k) minimum = ltb m (minimum * 2 ^ k)
is_below (finite (negsuc m) k) minimum = true
is_below _ minimum = false

abbrev pub same_bytes : List ℕ → List ℕ → Bool
same_bytes [] [] = true
same_bytes (a ∷ xs) (b ∷ ys) = a == b && same_bytes xs ys
same_bytes _ _ = false

unfoldable pub verify_scrypt_hash : Host → String → String → Bool
verify_scrypt_hash host password stored_hash =
    let parts = split_dollar stored_hash in
    let salt = part 2 parts in
    let expected_hash = part 3 parts in
    if str_eq salt "" || str_eq expected_hash ""
    then false
    else same_bytes (host.scrypt password salt) (host.from_base64url expected_hash)

-- `salt` is what is drawn: the salt of bcrypt, or that of scrypt as a text.
unfoldable pub hash_password : Host → String → String → ℕ → String
hash_password host salt password salt_rounds =
    if host.has_bcrypt
    then host.bcrypt_hash password salt
    else str_append "scrypt$" (
        str_append (decimal salt_rounds) (
          str_append "$"
            (str_append salt (str_append "$" (host.to_base64url (host.scrypt password salt))))))

-- Whether the password is valid, and whether it is to be hashed again.
unfoldable pub verify_password_hash : Host → String → String → ℕ → Bool × Bool
verify_password_hash host password stored_hash minimum_salt_rounds =
    let parts = split_dollar stored_hash in
    if is_bcrypt_hash stored_hash
    then if host.has_bcrypt
      then (
        host.bcrypt_compare password stored_hash,
        host.bcrypt_compare password stored_hash
            && is_below (host.to_number (part 2 parts)) minimum_salt_rounds,
      )
      else (false, false)
    else if is_scrypt_hash stored_hash
    then (
      verify_scrypt_hash host password stored_hash,
      verify_scrypt_hash host password stored_hash
          && is_below (host.to_number (part 1 parts)) minimum_salt_rounds,
    )
    else (str_eq (host.sha256 password) stored_hash, str_eq (host.sha256 password) stored_hash)
