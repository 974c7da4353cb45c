-- ===== src/Credentials/Examples.antt =====
-- A library of small functions: bytes written in unary, and a cipher that hides nothing.
use lean_fm.Common.{
  ℕ, zero, suc, ◌+◌, String, ◌≡◌, ◌∙◌, refl, ap, Bool, true, false, Option, none, some, [], ◌∷◌,
  length, arith, eqb,
}
use Prim.Native.Char.{code}
use lean_fm.Credentials.Operations.{
  Bytes, Library, Envelope, encrypt_secret, decrypt_record, sealed, opened, run,
}
use lean_fm.Credentials.RoundTrip.{decrypt-encrypt}

abbrev ones : ℕ → String → String
ones zero s = s
ones (suc n) s = String.◌∷◌ "1" (ones n s)

abbrev unary : Bytes → String
unary [] = ""
unary (n ∷ bs) = ones n (String.◌∷◌ "0" (unary bs))

abbrev push : ℕ → Option Bytes → Option Bytes
push n none = none
push n (some bs) = some (n ∷ bs)

abbrev choose : Bool → Option Bytes → Option Bytes → Option Bytes
choose true a b = a
choose false a b = b

abbrev count : ℕ → String → Option Bytes
count n String.[] = some []
count n (String.◌∷◌ c s) =
    let more = count (suc n) s in
    let next = count 0 s in choose (eqb (code c) b'1') more (push n next)

count-ones : (k n : ℕ) (s : String) → count k (ones n (String.◌∷◌ "0" s)) ≡ push (n + k) (count 0 s)
count-ones k zero s = ap (λ m. push m (count 0 s)) (omega arith)
count-ones k (suc n) s = count-ones (suc k) n s ∙ ap (λ m. push m (count 0 s)) (omega arith)

count-unary : (bs : Bytes) → count 0 (unary bs) ≡ some bs
count-unary [] = refl
count-unary (n ∷ bs) =
    count-ones 0 n (unary bs)
    ∙ ap (λ m. push m (count 0 (unary bs))) (omega arith)
    ∙ ap (push n) (count-unary bs)

abbrev library : Library
library = record {
  pbkdf2 = λ password salt n. password;
  seal = λ key nonce text data_bytes. text;
  unseal = λ key nonce text data_bytes. some text;
  encode = unary;
  decode = count 0;
  utf8 = λ s. [];
  same_digest = λ a b. eqb (length a) (length b);
}

abbrev salt : Bytes
salt = 0 ∷ 1 ∷ 0 ∷ 1 ∷ 0 ∷ 1 ∷ 0 ∷ 1 ∷ 0 ∷ 1 ∷ 0 ∷ 1 ∷ 0 ∷ 1 ∷ 0 ∷ 1 ∷ []

abbrev nonce : Bytes
nonce = 0 ∷ 1 ∷ 0 ∷ 1 ∷ 0 ∷ 1 ∷ 0 ∷ 1 ∷ 0 ∷ 1 ∷ 0 ∷ 1 ∷ []

decrypt-encrypt_example :
    (e : Envelope) × (run library salt nonce "110" (encrypt_secret "1010" "ann") ≡ some (sealed e))
    × (run library salt nonce "110" (decrypt_record e "ann") ≡ some (opened (unary (1 ∷ 1 ∷ []))))
decrypt-encrypt_example =
    decrypt-encrypt library count-unary salt nonce salt nonce (2 ∷ []) (1 ∷ 1 ∷ []) "110" "1010"
      "ann" (λ key n text data_bytes. refl) refl refl refl refl
