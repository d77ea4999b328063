-- ===== src/Auth/Hashes.antt =====
-- `hash_password` and `verify_password` of backend/src/kuuna_backend/domain/auth/service.py. Bytes
-- are numbers below 256. `hashlib.scrypt` and Python's `int` of a text are parameters, each with
-- `none` for an exception.
use kuuna_support_agents.Common.{
  ℕ, ◌+◌, ◌-◌, ◌*◌, ◌/◌, ◌%◌, ◌<◌, ◌≡◌, refl, ap, sym, ◌∙◌, Bool, true, false, ◌&&◌, ◌||◌, not,
  List, [], ◌∷◌, ◌++◌, Text, codes, text_eq, length, arith, if◌then◌else◌, ltb, leb, ◌==◌, Option,
  none, some, all, ◌↔◌, text_eq_iff, Bool-cases, inl, inr,
}

pub record Stdlib : Type 0 where
  -- The derived key of a password's bytes, a salt, `n`, `r`, `p` and `dklen`.
  pub scrypt : Text → List ℕ → ℕ → ℕ → ℕ → ℕ → Option (List ℕ)
  pub int : Text → Option ℕ

-- `bytes.hex()`
abbrev hex_digit : ℕ → ℕ
hex_digit d = if ltb d 10 then 48 + d else 87 + d

pub hex : List ℕ → Text
hex [] = []
hex (b ∷ bs) = hex_digit (b / 16) ∷ hex_digit (b % 16) ∷ hex bs

abbrev digit_value : ℕ → Option ℕ
digit_value c =
    if leb 48 c && leb c 57
    then some (c - 48)
    else (if leb 97 c && leb c 102
        then some (c - 87)
        else (if leb 65 c && leb c 70 then some (c - 55) else none))

-- The white space that `bytes.fromhex` passes over between two bytes.
abbrev is_ascii_space : ℕ → Bool
is_ascii_space c = c == 32 || leb 9 c && leb c 13

abbrev join_digits : Option ℕ → Option ℕ → Option (List ℕ) → Option (List ℕ)
join_digits (some h) (some l) (some bs) = some ((h * 16 + l) ∷ bs)
join_digits _ _ _ = none

-- `bytes.fromhex`
pub from_hex : Text → Option (List ℕ)
from_hex [] = some []
from_hex (c ∷ []) = if is_ascii_space c then some [] else none
from_hex (c ∷ d ∷ s) = elim (is_ascii_space c) [
  | true ↦ from_hex (d ∷ s)
  | false ↦ join_digits (digit_value c) (digit_value d) (from_hex s)
]

-- `s.split("$")`
pub split_dollar : Text → List Text
split_dollar [] = [] ∷ []
split_dollar (c ∷ s) =
    let rest = split_dollar s in
    if c == 36 then [] ∷ rest else (elim rest [ [] ↦ (c ∷ []) ∷ [] | w ∷ ws ↦ (c ∷ w) ∷ ws ])

abbrev dollar : ℕ
dollar = 36

abbrev scrypt_prefix : Text
scrypt_prefix = codes "scrypt$16384$8$1$"

abbrev encode : List ℕ → Option (List ℕ) → Option Text
encode salt none = none
encode salt (some derived) = some (scrypt_prefix ++ hex salt ++ dollar ∷ hex derived)

-- `hash_password` with the salt that was drawn.
unfoldable pub hash_password : Stdlib → (salt : List ℕ) → Text → Option Text
unfolding hex
hash_password l salt password = encode salt (l.scrypt password salt 16384 8 1 64)

abbrev matches : Option (List ℕ) → List ℕ → Bool
matches none digest = false
matches (some derived) digest = text_eq derived digest

abbrev check :
    Stdlib → Text → Option ℕ → Option ℕ → Option ℕ → Option (List ℕ) → Option (List ℕ) → Bool
check l password (some n) (some r) (some p) (some salt) (some digest) =
    matches (l.scrypt password salt n r p (length digest)) digest
check l password _ _ _ _ _ = false

abbrev verify_parts : Stdlib → Text → List Text → Bool
verify_parts l password (algorithm ∷ n ∷ r ∷ p ∷ salt ∷ digest ∷ []) =
    if text_eq algorithm (codes "scrypt")
    then check l password (l.int n) (l.int r) (l.int p) (from_hex salt) (from_hex digest)
    else false
verify_parts l password _ = false

-- `verify_password`
unfoldable pub verify_password : Stdlib → Text → Text → Bool
unfolding split_dollar from_hex
verify_password l password encoded_hash = verify_parts l password (split_dollar encoded_hash)

digit_lem : (d : ℕ) → d < 16 → digit_value (hex_digit d) ≡ some d
digit_lem d h = elim (Bool-cases (ltb d 10)) [
  | inl e ↦ rw e (ground arith)
  | inr e ↦ rw e (ground arith)
]

digit_no_space : (d : ℕ) → d < 16 → is_ascii_space (hex_digit d) ≡ false
digit_no_space d h = ground arith

digit_no_dollar : (d : ℕ) → d < 16 → (hex_digit d == 36) ≡ false
digit_no_dollar d h = ground arith

abbrev pub are_bytes : List ℕ → Bool
are_bytes = all (λ b. ltb b 256)

two_digits : (b : ℕ) → b ≡ b / 16 * 16 + b % 16
two_digits b = omega arith

from_hex_step :
    (c d : ℕ) (s : Text)
    → is_ascii_space c ≡ false
    → from_hex (c ∷ d ∷ s) ≡ join_digits (digit_value c) (digit_value d) (from_hex s)
unfolding from_hex
from_hex_step c d s h = rw (h, from_hex)

from_hex-hex : (bs : List ℕ) → are_bytes bs ≡ true → from_hex (hex bs) ≡ some bs
unfolding hex from_hex
from_hex-hex [] h = refl
from_hex-hex (b ∷ bs) h =
    let small : b < 256 = ground arith in
    let high : b / 16 < 16 = omega arith in
    let low : b % 16 < 16 = omega arith in
    from_hex_step (hex_digit (b / 16)) (hex_digit (b % 16)) (hex bs) (digit_no_space (b / 16) high)
    ∙ rw (digit_lem (b / 16) high, digit_lem (b % 16) low, from_hex-hex bs (ground arith))
        (ap (λ x. some (x ∷ bs)) (sym (two_digits b)))

-- No character of the text is a dollar sign.
abbrev is_word : Text → Bool
is_word = all (λ c. not (c == 36))

hex-is_word : (bs : List ℕ) → are_bytes bs ≡ true → is_word (hex bs) ≡ true
unfolding hex
hex-is_word [] h = refl
hex-is_word (b ∷ bs) h =
    let small : b < 256 = ground arith in
    let high : b / 16 < 16 = omega arith in
    let low : b % 16 < 16 = omega arith in
    rw (digit_no_dollar (b / 16) high, digit_no_dollar (b % 16) low) (hex-is_word bs (ground arith))

split_word : (w : Text) → is_word w ≡ true → split_dollar w ≡ w ∷ []
unfolding split_dollar
split_word [] h = refl
split_word (c ∷ w) h =
    let plain : (c == 36) ≡ false = ground arith in rw (plain, split_word w (ground arith))

split_after :
    (w s : Text) (ws : List Text)
    → is_word w ≡ true
    → split_dollar s ≡ ws
    → split_dollar (w ++ dollar ∷ s) ≡ w ∷ ws
unfolding split_dollar
split_after [] s ws h e = ap (λ t. [] ∷ t) e
split_after (c ∷ w) s ws h e =
    let plain : (c == 36) ≡ false = ground arith in rw (plain, split_after w s ws (ground arith) e)

split_hash :
    (salt derived : List ℕ)
    → are_bytes salt ≡ true
    → are_bytes derived ≡ true
    → split_dollar (scrypt_prefix ++ hex salt ++ dollar ∷ hex derived)
      ≡ codes "scrypt" ∷ codes "16384" ∷ codes "8" ∷ codes "1" ∷ hex salt ∷ hex derived ∷ []
split_hash salt derived h k = split_after (codes "scrypt") _ _ refl (
    split_after (codes "16384") _ _ refl (
      split_after (codes "8") _ _ refl (
        split_after (codes "1") _ _ refl (
          split_after (hex salt) (hex derived) _ (hex-is_word salt h)
            (split_word (hex derived) (hex-is_word derived k))))))

-- What `int` answers for the three numbers of a hash, and `hashlib.scrypt` for any key it derives:
-- `dklen` bytes.
pub record IsStdlib (l : Stdlib) : Type 0 where
  pub cost : l.int (codes "16384") ≡ some 16384
  pub block : l.int (codes "8") ≡ some 8
  pub parallel : l.int (codes "1") ≡ some 1
  pub derives :
      (password : Text) (salt : List ℕ) (n r p k : ℕ) (d : List ℕ)
      → l.scrypt password salt n r p k ≡ some d
      → (length d ≡ k) × (are_bytes d ≡ true)

matches_iff : (o : Option (List ℕ)) (d : List ℕ) → (matches o d ≡ true) ↔ (o ≡ some d)
matches_iff none d = ground arith
matches_iff (some e) d = ground (arith, text_eq_iff e d)

stored_lem :
    (l : Stdlib) (salt : List ℕ) (password : Text) (derived : List ℕ) (h : Text)
    → l.scrypt password salt 16384 8 1 64 ≡ some derived
    → hash_password l salt password ≡ some h
    → h ≡ scrypt_prefix ++ hex salt ++ dollar ∷ hex derived
unfolding hash_password
stored_lem l salt password derived h key made =
    let e : encode salt (l.scrypt password salt 16384 8 1 64)
        ≡ some (scrypt_prefix ++ hex salt ++ dollar ∷ hex derived) =
      rw key in
    ground (arith, e)

verify_stored :
    (l : Stdlib) (other : Text) (salt derived : List ℕ)
    → IsStdlib l
    → are_bytes salt ≡ true
    → are_bytes derived ≡ true
    → verify_password l other (scrypt_prefix ++ hex salt ++ dollar ∷ hex derived)
      ≡ matches (l.scrypt other salt 16384 8 1 (length derived)) derived
unfolding verify_password text_eq
verify_stored l other salt derived i h k =
    ap (verify_parts l other) (split_hash salt derived h k)
    ∙ rw (i.cost, i.block, i.parallel, from_hex-hex salt h, from_hex-hex derived k)

-- A password is accepted against the hash of another exactly if `scrypt` derives the same key from
-- both under the stored salt; so a password is accepted against its own hash.
pub verify-hash_iff :
    (l : Stdlib) (salt : List ℕ) (password other : Text) (derived : List ℕ) (h : Text)
    → IsStdlib l
    → are_bytes salt ≡ true
    → l.scrypt password salt 16384 8 1 64 ≡ some derived
    → hash_password l salt password ≡ some h
    → (verify_password l other h ≡ true) ↔ (l.scrypt other salt 16384 8 1 64 ≡ some derived)
verify-hash_iff l salt password other derived h i bytes key made =
    let (size, small) = i.derives password salt 16384 8 1 64 derived key in
    let stored : h ≡ scrypt_prefix ++ hex salt ++ dollar ∷ hex derived =
      stored_lem l salt password derived h key made in
    rw (stored, verify_stored l other salt derived i bytes small, size)
      (matches_iff (l.scrypt other salt 16384 8 1 64) derived)
