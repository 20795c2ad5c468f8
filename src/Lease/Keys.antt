-- ===== src/Lease/Keys.antt =====
-- The public keys of lease requests (validatePublicKey and fingerprint of
-- backend/internal/service/lease.go), with the functions of Go's strings package that they use.
use Prim.Native.Char.{Char, code}
use Prim.Native.String.{len, slice, ◌++◌ as join}
use server_cli.Common.{
  ℕ, String, str_eq, Bool, true, false, not, ◌&&◌, ◌||◌, if◌then◌else◌, List, [], ◌∷◌, ltb, leb,
  ◌==◌,
}

-- unicode.IsSpace.
abbrev pub is_space_code : ℕ → Bool
is_space_code n =
    (leb 9 n && leb n 13)
    || n == 32
    || n == 133
    || n == 160
    || n == 5760
    || (leb 8192 n && leb n 8202)
    || n == 8232
    || n == 8233
    || n == 8239
    || n == 8287
    || n == 12288

abbrev pub is_space : Char → Bool
is_space c = is_space_code (code c)

-- A field in front of the others, if it has any character.
abbrev pub with_field : String → List String → List String
with_field String.[] fs = fs
with_field (String.◌∷◌ c s) fs = String.◌∷◌ c s ∷ fs

-- strings.Fields. The first text is what was read of the field that the second one goes on with.
unfoldable pub fields_from : String → String → List String
fields_from seen String.[] = with_field seen []
fields_from seen (String.◌∷◌ c s) =
    let others = fields_from String.[] s in
    let longer = fields_from (join seen (String.◌∷◌ c String.[])) s in
    if is_space c then with_field seen others else longer

unfoldable pub fields : String → List String
fields s = fields_from String.[] s

-- strings.TrimSpace(s) == "".
unfoldable pub is_blank : String → Bool
is_blank String.[] = true
is_blank (String.◌∷◌ c s) = let rest = is_blank s in is_space c && rest

-- strings.TrimSpace.
unfoldable pub trim_left : String → String
trim_left String.[] = String.[]
trim_left (String.◌∷◌ c s) = let rest = trim_left s in if is_space c then rest else String.◌∷◌ c s

unfoldable pub trim_right : String → String
trim_right String.[] = String.[]
trim_right (String.◌∷◌ c s) =
    let rest = trim_right s in if is_blank (String.◌∷◌ c s) then String.[] else String.◌∷◌ c rest

unfoldable pub trim_space : String → String
trim_space s = trim_right (trim_left s)

unfoldable pub every : (ℕ → Bool) → String → Bool
every p String.[] = true
every p (String.◌∷◌ c s) = let rest = every p s in p (code c) && rest

-- No line feed, carriage return, comma or quotation mark.
abbrev pub is_harmless : ℕ → Bool
is_harmless n = not (n == 10 || n == 13 || n == 44 || n == 34)

-- A letter, a digit, or one of +, / and =.
abbrev pub is_base64 : ℕ → Bool
is_base64 n =
    (leb 65 n && leb n 90)
    || (leb 97 n && leb n 122)
    || (leb 48 n && leb n 57)
    || n == 43
    || n == 47
    || n == 61

unfoldable pub is_key_type : String → Bool
is_key_type s =
    str_eq s "ssh-ed25519"
    || str_eq s "ssh-rsa"
    || str_eq s "ecdsa-sha2-nistp256"
    || str_eq s "ecdsa-sha2-nistp384"
    || str_eq s "ecdsa-sha2-nistp521"
    || str_eq s "sk-ssh-ed25519@openssh.com"
    || str_eq s "sk-ecdsa-sha2-nistp256@openssh.com"

abbrev pub has_key_fields : List String → Bool
has_key_fields (kind ∷ body ∷ []) =
    is_key_type kind && not (ltb (len body) 16) && every is_base64 body
has_key_fields (kind ∷ body ∷ comment ∷ []) =
    is_key_type kind && not (ltb (len body) 16) && every is_base64 body
has_key_fields _ = false

-- validatePublicKey: whether it returns no error.
unfoldable pub validate_public_key : String → Bool
validate_public_key key =
    not (str_eq key "") && every is_harmless key && has_key_fields (fields key)

-- fingerprint. `sha256_hex` is the hash in hexadecimal digits.
unfoldable pub fingerprint : (String → String) → String → String
fingerprint sha256_hex key = elim (fields key) [
  | kind ∷ body ∷ _ ↦ join "sha256:" (sha256_hex body)
  | _ ↦ join "sha256:" (slice (sha256_hex key) 0 32)
]
