-- ===== src/Security/Tests/Codes.antt =====
-- Encodings with the round trips that the platform documents, for the sample vault: texts as the
-- numbers of their characters, and numbers as runs of ticks.
use Prim.Native.Char.{Char, char, code, IsScalar, nul}
use Prim.Native.Nat.{compare, Ordering}
use text.Mathlib.TextBridge.{to_list, of_list, to_list-of_list, of_list-to_list}
use text.Mathlib.TextEquality.{Char-path}
use choice_mind.Prelude.{
  ℕ, zero, suc, ◌+◌, String, Option, none, some, ◌≡◌, refl, ap, ap₂, ◌∙◌, List, [], ◌∷◌, map, arith,
  eqb, if◌then◌else◌,
}

tick : Char
tick = char 97 tt

stop : Char
stop = char 98 tt

unary : ℕ → List Char → List Char
unary zero cs = stop ∷ cs
unary (suc n) cs = tick ∷ unary n cs

encode : List ℕ → List Char
unfolding unary stop tick
encode [] = []
encode (n ∷ ns) = unary n (encode ns)

decode_from : ℕ → List Char → List ℕ
decode_from k [] = []
decode_from k (c ∷ cs) =
    let more = decode_from (suc k) cs in
    let next = decode_from 0 cs in if eqb (code c) 97 then more else k ∷ next

decode_from-unary :
    (k n : ℕ) (cs : List Char) → decode_from k (unary n cs) ≡ (k + n) ∷ decode_from 0 cs
unfolding decode_from unary tick stop
decode_from-unary k zero cs = ground arith
decode_from-unary k (suc n) cs =
    decode_from-unary (suc k) n cs ∙ ap (λ m. m ∷ decode_from 0 cs) (omega arith)

decode-encode : (ns : List ℕ) → decode_from 0 (encode ns) ≡ ns
unfolding encode decode_from
decode-encode [] = refl
decode-encode (n ∷ ns) =
    decode_from-unary 0 n (encode ns) ∙ ap₂ ◌∷◌ (omega arith) (decode-encode ns)

pub numbers_text : List ℕ → String
numbers_text ns = of_list (encode ns)

pub text_numbers : String → List ℕ
text_numbers s = decode_from 0 (to_list s)

pub text_numbers-numbers_text : (ns : List ℕ) → text_numbers (numbers_text ns) ≡ ns
unfolding numbers_text text_numbers
text_numbers-numbers_text ns = ap (decode_from 0) (to_list-of_list (encode ns)) ∙ decode-encode ns

scalar_of :
    (n : ℕ) (a b c : Ordering)
    → compare n 55296 ≡ a
    → compare 57343 n ≡ b
    → compare n 1114112 ≡ c
    → Option (IsScalar n)
scalar_of n Ordering.lt b c e f g = some (rw e tt)
scalar_of n Ordering.eq Ordering.lt Ordering.lt e f g = some (rw (e, f, g) tt)
scalar_of n Ordering.gt Ordering.lt Ordering.lt e f g = some (rw (e, f, g) tt)
scalar_of n _ _ _ e f g = none

char_of : (n : ℕ) → Option (IsScalar n) → Char
char_of n none = nul
char_of n (some p) = char n p

to_char : ℕ → Char
unfolding scalar_of char_of
to_char n =
    char_of n (scalar_of n (compare n 55296) (compare 57343 n) (compare n 1114112) refl refl refl)

code-char_of :
    (n : ℕ) (a b c : Ordering) (e : compare n 55296 ≡ a) (f : compare 57343 n ≡ b)
    (g : compare n 1114112 ≡ c)
    → IsScalar n
    → code (char_of n (scalar_of n a b c e f g)) ≡ n
unfolding scalar_of char_of
code-char_of n Ordering.lt b c e f g p = refl
code-char_of n Ordering.eq Ordering.lt Ordering.lt e f g p = refl
code-char_of n Ordering.eq Ordering.lt Ordering.eq e f g p = absurd (rw (e, f, g) at p)
code-char_of n Ordering.eq Ordering.lt Ordering.gt e f g p = absurd (rw (e, f, g) at p)
code-char_of n Ordering.eq Ordering.eq c e f g p = absurd (rw (e, f) at p)
code-char_of n Ordering.eq Ordering.gt c e f g p = absurd (rw (e, f) at p)
code-char_of n Ordering.gt Ordering.lt Ordering.lt e f g p = refl
code-char_of n Ordering.gt Ordering.lt Ordering.eq e f g p = absurd (rw (e, f, g) at p)
code-char_of n Ordering.gt Ordering.lt Ordering.gt e f g p = absurd (rw (e, f, g) at p)
code-char_of n Ordering.gt Ordering.eq c e f g p = absurd (rw (e, f) at p)
code-char_of n Ordering.gt Ordering.gt c e f g p = absurd (rw (e, f) at p)

to_char-code : (c : Char) → to_char (code c) ≡ c
unfolding to_char
to_char-code (char n p) = Char-path (to_char n) (char n p) (code-char_of n _ _ _ refl refl refl p)

pub to_utf8 : String → List ℕ
to_utf8 s = map code (to_list s)

pub from_utf8 : List ℕ → String
from_utf8 ns = of_list (map to_char ns)

pub from_utf8-to_utf8 : (s : String) → from_utf8 (to_utf8 s) ≡ s
unfolding to_utf8 from_utf8
from_utf8-to_utf8 s = ap of_list (each (to_list s)) ∙ of_list-to_list s
  where
    each : (cs : List Char) → map to_char (map code cs) ≡ cs
    each [] = refl
    each (c ∷ cs) = ap₂ ◌∷◌ (to_char-code c) (each cs)
