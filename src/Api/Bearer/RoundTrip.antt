-- ===== src/Api/Bearer/RoundTrip.antt =====
-- internal/api/middleware.go, extractBearerToken: a header is read back as the key that it was built of.
use Prim.Native.Char.{code}
use Prim.Native.String.{String}
use jobit.Prelude.{ℕ, ◌≡◌, refl, ◌∙◌, ap, Bool, true, false, not, ◌&&◌, some, ◌==◌, arith}
use jobit.Api.Bearer.{
  is_space, trim_left, trim_right, trim_space, split_space, equal_fold, token_of,
  extract_bearer_token,
}

abbrev pub append : String → String → String
append String.[] t = t
append (String.◌∷◌ c s) t = String.◌∷◌ c (append s t)

-- Whether every code point passes a test.
abbrev pub every : (ℕ → Bool) → String → Bool
every p String.[] = true
every p (String.◌∷◌ c s) = p (code c) && every p s

abbrev pub is_solid : ℕ → Bool
is_solid c = not (is_space c)

abbrev is_no_blank : ℕ → Bool
is_no_blank c = not (c == 32)

abbrev pub blank : String → String
blank s = String.◌∷◌ " " s

trim_left-append :
    (pad s : String) → every is_space pad ≡ true → trim_left (append pad s) ≡ trim_left s
unfolding trim_left
trim_left-append String.[] s h = refl
trim_left-append (String.◌∷◌ c pad) s h = ground (arith, trim_left-append pad s)

trim_left_all : (pad : String) → every is_space pad ≡ true → trim_left pad ≡ String.[]
unfolding trim_left
trim_left_all String.[] h = refl
trim_left_all (String.◌∷◌ c pad) h = ground (arith, trim_left_all pad)

trim_right_all : (pad : String) → every is_space pad ≡ true → trim_right pad ≡ String.[]
unfolding trim_right
trim_right_all String.[] h = refl
trim_right_all (String.◌∷◌ c pad) h =
    let tail : trim_right pad ≡ String.[] = trim_right_all pad (ground arith) in
    rw tail (ground arith)

trim_right-append :
    (key tail : String)
    → every is_solid key ≡ true
    → every is_space tail ≡ true
    → trim_right (append key tail) ≡ key
unfolding trim_right
trim_right-append String.[] tail h k = trim_right_all tail k
trim_right-append (String.◌∷◌ c key) tail h k =
    let rest : trim_right (append key tail) ≡ key = trim_right-append key tail (ground arith) k in
    let solid : is_space (code c) ≡ false = ground arith in rw (rest, solid) (ground arith)

-- What stands around a key is trimmed away.
trim_space-append :
    (pad key tail : String)
    → every is_space pad ≡ true
    → every is_solid key ≡ true
    → every is_space tail ≡ true
    → trim_space (append pad (append key tail)) ≡ key
unfolding trim_space trim_left
trim_space-append pad String.[] tail p h k =
    ap trim_right (trim_left-append pad tail p ∙ trim_left_all tail k)
    ∙ trim_right_all String.[] refl
trim_space-append pad (String.◌∷◌ c key) tail p h k =
    let solid : is_space (code c) ≡ false = ground arith in
    ap trim_right (trim_left-append pad (append (String.◌∷◌ c key) tail) p ∙ rw solid refl)
    ∙ trim_right-append (String.◌∷◌ c key) tail h k

split_space-append :
    (s rest : String)
    → every is_no_blank s ≡ true
    → split_space (append s (blank rest)) ≡ some (s, rest)
unfolding split_space
split_space-append String.[] rest h = refl
split_space-append (String.◌∷◌ c s) rest h =
    let found : split_space (append s (blank rest)) ≡ some (s, rest) =
      split_space-append s rest (ground arith) in
    let other : (code c == 32) ≡ false = ground arith in rw (other, found) refl

-- A word that folds to one without blanks has none.
equal_fold-no_blank :
    (s w : String) → equal_fold s w ≡ true → every is_no_blank w ≡ true → every is_no_blank s ≡ true
unfolding equal_fold
equal_fold-no_blank String.[] w h k = refl
equal_fold-no_blank (String.◌∷◌ c s) String.[] h k = cc
equal_fold-no_blank (String.◌∷◌ c s) (String.◌∷◌ d w) h k = ground (arith, equal_fold-no_blank s w)

-- A header of the word "bearer", in any case, a blank, and a key without white space that white space
-- may surround, gives that key.
pub extract_bearer_token-append :
    (scheme pad key tail : String)
    → equal_fold scheme "bearer" ≡ true
    → every is_space pad ≡ true
    → every is_solid key ≡ true
    → every is_space tail ≡ true
    → extract_bearer_token (append scheme (blank (append pad (append key tail)))) ≡ key
unfolding extract_bearer_token equal_fold
extract_bearer_token-append String.[] pad key tail f p h k = cc
extract_bearer_token-append (String.◌∷◌ c scheme) pad key tail f p h k =
    let word = String.◌∷◌ c scheme in
    ap token_of (
      split_space-append word (append pad (append key tail))
        (equal_fold-no_blank word "bearer" f refl))
    ∙ rw f (trim_space-append pad key tail p h k)
