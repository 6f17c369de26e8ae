-- ===== src/Examples/Codes.antt =====
-- Ciphers and codes that hide nothing and keep the laws that the program relies on: a byte is coded
-- by as many letters, and a text by the numbers of its letters.
use softwareoath.Base.{if◌then◌else◌, is_space, none, some}
use softwareoath.Integrations.Secrets.Laws.{IsCipher}
use softwareoath.Auth.State.Laws.{IsSigning}
use softwareoath.Auth.State.{Signing}
use softwareoath.Auth.Cookies.Laws.{IsWeb}
use softwareoath.Auth.Cookies.{Web}
use softwareoath.Integrations.Secrets.{Bytes, Cipher}
use Prim.Native.Char.{Char, char, code, nul, IsLt, IsScalar}
use Prim.Native.Nat.{Ordering, compare}
use text.Mathlib.TextEquality.{Char-path}
use softwareoath.Base.{
  [], ◌∷◌, ℕ, zero, suc, String, Option, nat_eq, ◌+◌, ◌≡◌, refl, ap, arith, ◌∙◌, ◌<◌, ◌==◌,
  has_no_space, length, lacks, false, true, eq_iff, ◌≢◌, sym, Bool-cases, inl, inr,
}

abbrev pub ScalarAfter : Ordering → Ordering → Type 0
ScalarAfter Ordering.lt o = IsLt o
ScalarAfter Ordering.eq _ = ⊥
ScalarAfter Ordering.gt _ = ⊥

abbrev pub Scalar : Ordering → Ordering → Ordering → Type 0
Scalar Ordering.lt _ _ = Unit
Scalar Ordering.eq o p = ScalarAfter o p
Scalar Ordering.gt o p = ScalarAfter o p

abbrev pub find_after : (o p : Ordering) → Option (ScalarAfter o p)
find_after Ordering.lt Ordering.lt = some tt
find_after Ordering.lt Ordering.eq = none
find_after Ordering.lt Ordering.gt = none
find_after Ordering.eq p = none
find_after Ordering.gt p = none

abbrev pub find_scalar : (o p q : Ordering) → Option (Scalar o p q)
find_scalar Ordering.lt p q = some tt
find_scalar Ordering.eq p q = find_after p q
find_scalar Ordering.gt p q = find_after p q

after_found : (o p : Ordering) → ScalarAfter o p → (r : ScalarAfter o p) × (find_after o p ≡ some r)
after_found Ordering.lt Ordering.lt h = (tt, refl)
after_found Ordering.lt Ordering.eq h = absurd h
after_found Ordering.lt Ordering.gt h = absurd h
after_found Ordering.eq p h = absurd h
after_found Ordering.gt p h = absurd h

scalar_found : (o p q : Ordering) → Scalar o p q → (r : Scalar o p q) × (find_scalar o p q ≡ some r)
scalar_found Ordering.lt p q h = (tt, refl)
scalar_found Ordering.eq p q h = after_found p q h
scalar_found Ordering.gt p q h = after_found p q h

abbrev pub letter : (n : ℕ) → Option (IsScalar n) → Char
letter n none = nul
letter n (some p) = char n p

-- The letter of a number.
unfoldable pub char_of : ℕ → Char
char_of n = letter n (find_scalar (compare n 55296) (compare 57343 n) (compare n 1114112))

char_of-code : (c : Char) → char_of (code c) ≡ c
unfolding char_of
char_of-code (char n p) =
    let (r, is) = scalar_found (compare n 55296) (compare 57343 n) (compare n 1114112) p in
    ap (letter n) is ∙ Char-path (char n r) (char n p) refl

abbrev pub codes : String → Bytes
codes String.[] = []
codes (String.◌∷◌ c s) = code c ∷ codes s

abbrev pub letters : Bytes → String
letters [] = ""
letters (x ∷ b) = String.◌∷◌ (char_of x) (letters b)

letters-codes : (s : String) → letters (codes s) ≡ s
letters-codes String.[] = refl
letters-codes (String.◌∷◌ c s) = cc (char_of-code c, letters-codes s)

-- As many letters `a` as a number, and the letter `b`.
abbrev pub spell_number : ℕ → String → String
spell_number zero s = String.◌∷◌ "b" s
spell_number (suc n) s = String.◌∷◌ "a" (spell_number n s)

abbrev pub spell : Bytes → String
spell [] = ""
spell (x ∷ b) = spell_number x (spell b)

abbrev pub unspell : ℕ → String → Bytes
unspell n String.[] = []
unspell n (String.◌∷◌ c s) = if nat_eq (code c) b'b' then n ∷ unspell 0 s else unspell (suc n) s

unspell-number : (n m : ℕ) (s : String) → unspell m (spell_number n s) ≡ (m + n) ∷ unspell 0 s
unspell-number zero m s = ground arith
unspell-number (suc n) m s =
    unspell-number n (suc m) s ∙ ap (λ (k : ℕ). k ∷ unspell 0 s) (omega arith)

unspell-spell : (b : Bytes) → unspell 0 (spell b) ≡ b
unspell-spell [] = refl
unspell-spell (x ∷ b) = ground (arith, unspell-number x 0 (spell b), unspell-spell b)

spell_number-lacks :
    (at n : ℕ) (s : String) → at < 97 → lacks at s ≡ true → lacks at (spell_number n s) ≡ true
spell_number-lacks at zero s h k = ground (arith, k)
spell_number-lacks at (suc n) s h k = ground (arith, spell_number-lacks at n s h k)

spell-lacks : (at : ℕ) (b : Bytes) → at < 97 → lacks at (spell b) ≡ true
spell-lacks at [] h = refl
spell-lacks at (x ∷ b) h = spell_number-lacks at x (spell b) h (spell-lacks at b h)

abbrev first_code : String → ℕ
first_code String.[] = 0
first_code (String.◌∷◌ c s) = suc (code c)

differ : (s t : String) → first_code s ≢ first_code t → (s == t) ≡ false
differ s t h = elim (Bool-cases (s == t)) [
  | inl e ↦ absurd (h (ap first_code ((eq_iff s t).0 e)))
  | inr e ↦ e
]

spell_number-full : (n : ℕ) (s : String) → (spell_number n s == "") ≡ false
spell_number-full zero s = differ (String.◌∷◌ "b" s) "" (λ e. ground arith)
spell_number-full (suc n) s = differ (String.◌∷◌ "a" (spell_number n s)) "" (λ e. ground arith)

spell-empty : (b : Bytes) → (spell b == "") ≡ nat_eq (length b) 0
spell-empty [] = refl
spell-empty (x ∷ b) = ground (arith, spell_number-full x (spell b))

spell_number-no_space :
    (n : ℕ) (s : String) → has_no_space s ≡ true → has_no_space (spell_number n s) ≡ true
unfolding is_space
spell_number-no_space zero s h = h
spell_number-no_space (suc n) s h = spell_number-no_space n s h

spell-no_space : (b : Bytes) → has_no_space (spell b) ≡ true
spell-no_space [] = refl
spell-no_space (x ∷ b) = spell_number-no_space x (spell b) (spell-no_space b)

spell_number-percent : (n : ℕ) (s : String) → (spell_number n s == "%") ≡ false
spell_number-percent zero s = differ (String.◌∷◌ "b" s) "%" (λ e. omega (arith, e))
spell_number-percent (suc n) s =
    differ (String.◌∷◌ "a" (spell_number n s)) "%" (λ e. omega (arith, e))

spell-percent : (b : Bytes) → (spell b == "%") ≡ false
spell-percent [] = refl
spell-percent (x ∷ b) = spell_number-percent x (spell b)

codes-empty : (s : String) → nat_eq (length (codes s)) 0 ≡ (s == "")
codes-empty String.[] = refl
codes-empty (String.◌∷◌ c s) =
    let full : nat_eq (suc (length (codes s))) 0 ≡ false = suc_full (length (codes s)) in
    full ∙ sym (differ (String.◌∷◌ c s) "" (λ e. omega (arith, e)))
  where
    suc_full : (n : ℕ) → nat_eq (suc n) 0 ≡ false
    suc_full n = ground arith

abbrev pub mark_of : ℕ → String
mark_of zero = "0"
mark_of (suc n) = "1"

mark_of_lem :
    (n : ℕ)
    → (lacks b';' (mark_of n) ≡ true)
      × (has_no_space (mark_of n) ≡ true)
      × (lacks b'=' (mark_of n) ≡ true)
      × ((mark_of n == "0") ≡ nat_eq n 0)
unfolding is_space
mark_of_lem zero = (refl, refl, refl, refl)
mark_of_lem (suc n) = (refl, refl, refl, ground (arith, eq_iff "1" "0"))

-- A lone percent sign is no code. The text of a number tells only whether it is 0.
abbrev pub web : Web
web = record {
  encode_uri = λ s. spell (codes s);
  decode_uri = λ s. if s == "%" then none else some (letters (unspell 0 s));
  decimal = mark_of;
}

pub web_laws : IsWeb web
web_laws = record {
  lacks_semicolon = λ s. spell-lacks b';' (codes s) (omega arith);
  lacks_equals = λ s. spell-lacks b'=' (codes s) (omega arith);
  no_space = λ s. spell-no_space (codes s);
  decode-encode =
      λ s. ground (arith, spell-percent (codes s), unspell-spell (codes s), letters-codes s);
  encode_empty = λ s. spell-empty (codes s) ∙ codes-empty s;
  decimal_lacks = λ n. (mark_of_lem n).0;
  decimal_no_space = λ n. (mark_of_lem n).1;
  decimal_lacks_equals = λ n. (mark_of_lem n).2;
  decimal_zero = λ n. (mark_of_lem n).3;
}

abbrev pub cipher : Cipher
cipher = record {
  from_base64 = codes;
  base64url = spell;
  from_base64url = unspell 0;
  utf8 = codes;
  from_utf8 = letters;
  seal = λ key iv text. (text, 1 ∷ []);
  unseal = λ key iv tag text. if nat_eq (length tag) 1 then some text else none;
}

pub cipher_laws : IsCipher cipher
cipher_laws = record {
  base64url_lacks = λ b. spell-lacks b'.' b (omega arith);
  base64url_back = unspell-spell;
  base64url_empty = spell-empty;
  utf8_back = letters-codes;
  utf8_empty = codes-empty;
  unseal-seal = λ key iv text. refl;
  tag_full = λ key iv text. omega arith;
  same_length = λ key iv text. refl;
}

abbrev pub signing : Signing
signing = record {
  hmac = λ secret text. 1 ∷ codes secret;
  base64url = spell;
  from_base64url = unspell 0;
  stringify = λ v. v.expires_at ∷ codes v.nonce;
  parse = λ b. elim b [
    | [] ↦ none
    | x ∷ r ↦ some (record { nonce = some (letters r); expires_at = some x })
  ];
}

pub signing_laws : IsSigning signing
signing_laws = record {
  base64url_lacks = λ b. spell-lacks b'.' b (omega arith);
  base64url_back = unspell-spell;
  base64url_full = λ b h. ground (arith, spell-empty b, h);
  parse-stringify = λ v. ground (arith, letters-codes v.nonce);
  stringify_full = λ v e. ground arith;
  hmac_full = λ secret text e. ground arith;
}
