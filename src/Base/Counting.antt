-- ===== src/Base/Counting.antt =====
-- Lists compared by how often each text stands in them.
use Prim.Native.Nat.{suc, ◌+◌, ◌≤◌, ◌<◌}
use Prim.Native.String.{String}
use mathlib.Core.Path.{◌≡◌, refl}
use mathlib.Core.List.{List, [], ◌∷◌}
use native.Mathlib.Omega.{arith}
use text.Mathlib.Text.{◌==◌ as str_eq}
use text.Mathlib.TextEquality.{eq_iff}
use birthub_360_innovation.Base.Tests.{if◌then◌else◌, bit, str_eq_refl}
use birthub_360_innovation.Base.Lists.{length, count}

-- One occurrence of a text less.
remove : String → List String → List String
remove x [] = []
remove x (y ∷ ys) = if str_eq y x then ys else y ∷ remove x ys

length-remove :
    (x : String) (ys : List String) → 0 < count x ys → suc (length (remove x ys)) ≡ length ys
unfolding remove
length-remove x [] h = absurd (omega arith)
length-remove x (y ∷ ys) h = ground (arith, length-remove x ys)

count-remove :
    (x v : String) (ys : List String)
    → 0 < count x ys
    → count v (remove x ys) + bit (str_eq x v) ≡ count v ys
unfolding remove
count-remove x v [] h = absurd (omega arith)
count-remove x v (y ∷ ys) h =
    ground (arith, count-remove x v ys, eq_iff y x, eq_iff y v, eq_iff x v)

-- The pigeonhole principle.
pub length-le_of_count :
    (xs ys : List String) → ((v : String) → count v xs ≤ count v ys) → length xs ≤ length ys
length-le_of_count [] ys h = omega arith
length-le_of_count (x ∷ xs) ys h =
    let here : 0 < count x ys = ground (arith, h x, str_eq_refl x) in
    let rest =
      length-le_of_count xs (remove x ys) λ v. omega (arith, h v, count-remove x v ys here) in
    omega (arith, rest, length-remove x ys here)

-- If the lengths are equal too, the lists hold the same texts equally often.
pub count-eq_of_length :
    (xs ys : List String)
    → ((v : String) → count v xs ≤ count v ys)
    → length xs ≡ length ys
    → (v : String) → count v xs ≡ count v ys
count-eq_of_length [] [] h e v = refl
count-eq_of_length [] (y ∷ ys) h e v = absurd (omega arith)
count-eq_of_length (x ∷ xs) ys h e v =
    let here : 0 < count x ys = ground (arith, h x, str_eq_refl x) in
    let rest =
      count-eq_of_length xs (remove x ys) (λ w. omega (arith, h w, count-remove x w ys here))
        (omega (arith, length-remove x ys here)) v in
    omega (arith, rest, count-remove x v ys here)
