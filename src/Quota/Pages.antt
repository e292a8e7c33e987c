-- ===== src/Quota/Pages.antt =====
-- The pages of `listUsage` together are all the rows.
use birthub_360_innovation.Base.{
  ℕ, zero, suc, ◌≤◌, ◌<◌, String, Bool, true, false, List, [], ◌∷◌, ◌++◌, Option, none, some, ◌≡◌,
  refl, ap, ◌∙◌, subst, inl, inr, arith, ltb, Bool-cases, str_eq, str_eq_refl, length, get_elem?,
  take, count, count-append, append_assoc,
}
use birthub_360_innovation.Quota.{QuotaRow, Store}
use birthub_360_innovation.Quota.Page.{
  ids, after_cursor, from_cursor, tenant_rows, page, list_usage, all_pages,
}

module _ {A : Type 0} where
  take-take : (n : ℕ) (xs : List A) → take n (take (suc n) xs) ≡ take n xs
  take-take zero xs = refl
  take-take (suc n) [] = refl
  take-take (suc n) (x ∷ xs) = ap (λ l. x ∷ l) (take-take n xs)

  take-all : (n : ℕ) (xs : List A) → length xs ≤ n → take n xs ≡ xs
  take-all zero [] h = refl
  take-all zero (x ∷ xs) h = absurd (omega (arith, h))
  take-all (suc n) [] h = refl
  take-all (suc n) (x ∷ xs) h = ap (λ l. x ∷ l) (take-all n xs (omega (arith, h)))

  ltb-length-take : (n : ℕ) (xs : List A) → ltb n (length (take (suc n) xs)) ≡ ltb n (length xs)
  ltb-length-take zero [] = refl
  ltb-length-take zero (x ∷ xs) = ground arith
  ltb-length-take (suc n) [] = ground arith
  ltb-length-take (suc n) (x ∷ xs) = ground (arith, ltb-length-take n xs)

  -- A page that is not the last one, cut before its last row.
  record Cut (m : ℕ) (xs : List A) : Type 0 where
    front : List A
    last : A
    tail : List A
    whole : front ++ last ∷ tail ≡ xs
    taken : take (suc m) xs ≡ front ++ last ∷ []
    there : get_elem? (take (suc (suc m)) xs) m ≡ some last
    shorter : length tail < length xs

  cut : (m : ℕ) (xs : List A) → suc m ≤ length xs → Cut m xs
  cut m [] h = absurd (omega (arith, h))
  cut zero (x ∷ xs) h = record {
    front = [];
    last = x;
    tail = xs;
    whole = refl;
    taken = refl;
    there = refl;
    shorter = omega arith;
  }
  cut (suc m) (x ∷ xs) h =
      let c = cut m xs (omega (arith, h)) in
      record {
        front = x ∷ c.front;
        last = c.last;
        tail = c.tail;
        whole = ap (λ l. x ∷ l) c.whole;
        taken = ap (λ l. x ∷ l) c.taken;
        there = c.there;
        shorter = omega (arith, c.shorter);
      }

after_cursor-behind :
    (front rest : List QuotaRow) (x : QuotaRow)
    → count x.id (ids front) ≡ 0
    → after_cursor x.id (front ++ x ∷ rest) ≡ rest
unfolding after_cursor
after_cursor-behind [] rest x h = rw (str_eq_refl x.id)
after_cursor-behind (y ∷ front) rest x h = elim (Bool-cases (str_eq y.id x.id)) [
  | inl same ↦ absurd (ground (arith, same, h))
  | inr other ↦ rw other (after_cursor-behind front rest x (ground (arith, other, h)))
]

ids-append : (xs ys : List QuotaRow) → ids (xs ++ ys) ≡ ids xs ++ ids ys
ids-append [] ys = refl
ids-append (x ∷ xs) ys = ap (λ l. x.id ∷ l) (ids-append xs ys)

-- The row between two parts of a list with no id twice, none of them empty.
from_cursor-behind :
    (front rest : List QuotaRow) (x : QuotaRow)
    → ((v : String) → count v (ids (front ++ x ∷ rest)) ≤ 1)
    → count "" (ids (front ++ x ∷ rest)) ≡ 0
    → from_cursor (some x.id) (front ++ x ∷ rest) ≡ rest
from_cursor-behind front rest x once filled =
    let split = λ (v : String).
      ap (count v) (ids-append front (x ∷ rest)) ∙ count-append v (ids front) (ids (x ∷ rest)) in
    let named : str_eq x.id "" ≡ false = ground (arith, filled, split "") in
    let alone : count x.id (ids front) ≡ 0 =
      ground (arith, once x.id, split x.id, str_eq_refl x.id) in
    rw named (after_cursor-behind front rest x alone)

page-last :
    (ordered rest : List QuotaRow) (cursor : Option String) (m : ℕ)
    → from_cursor cursor ordered ≡ rest
    → ltb (suc m) (length rest) ≡ false
    → page ordered cursor (suc m) ≡ (rest, none)
unfolding page
page-last ordered rest cursor m here over =
    rw (here, page, ltb-length-take (suc m) rest, over, take-take (suc m) rest)
      (ap (λ l. (l, none)) (take-all (suc m) rest (ground (arith, over))))

page-more :
    (ordered rest : List QuotaRow) (cursor : Option String) (m : ℕ)
    → from_cursor cursor ordered ≡ rest
    → ltb (suc m) (length rest) ≡ true
    → (c : Cut m rest) → page ordered cursor (suc m) ≡ (c.front ++ c.last ∷ [], some c.last.id)
unfolding page
page-more ordered rest cursor m here more c =
    rw (here, page, ltb-length-take (suc m) rest, more, take-take (suc m) rest, c.taken, c.there)
      refl

module _ (before : String → String → Bool) (reference : String) (m : ℕ) (s : Store)
    (once : (v : String) → count v (ids (tenant_rows before reference s)) ≤ 1)
    (filled : count "" (ids (tenant_rows before reference s)) ≡ 0) where
  pages_from :
      (fuel : ℕ) (done rest : List QuotaRow) (cursor : Option String)
      → done ++ rest ≡ tenant_rows before reference s
      → from_cursor cursor (tenant_rows before reference s) ≡ rest
      → length rest < fuel
      → all_pages before reference (suc m) s fuel cursor ≡ rest
  unfolding all_pages list_usage
  pages_from zero done rest cursor whole here enough = absurd (omega (arith, enough))
  pages_from (suc fuel) done rest cursor whole here enough =
      let ordered = tenant_rows before reference s in
      elim (Bool-cases (ltb (suc m) (length rest))) [
        | inl more ↦
            let c = cut m rest (ground (arith, more)) in
            let front = done ++ c.front in
            let parts : front ++ c.last ∷ c.tail ≡ ordered =
              append_assoc done c.front (c.last ∷ c.tail) ∙ ap (λ l. done ++ l) c.whole ∙ whole in
            let behind : from_cursor (some c.last.id) ordered ≡ c.tail =
              subst (λ l. from_cursor (some c.last.id) l ≡ c.tail) parts
                (from_cursor-behind front c.tail c.last (λ v. rw parts (once v))
                  (rw parts filled)) in
            let later =
              pages_from fuel (front ++ c.last ∷ []) c.tail (some c.last.id)
                (append_assoc front (c.last ∷ []) c.tail ∙ parts) behind
                (omega (arith, enough, c.shorter)) in
            rw (page-more ordered rest cursor m here more c, all_pages, list_usage, later)
              (append_assoc c.front (c.last ∷ []) c.tail ∙ c.whole)
        | inr over ↦ rw (page-last ordered rest cursor m here over, all_pages, list_usage) refl
      ]

  -- If the rows of the tenant have ids of their own, none of them empty, then the pages of any size but 0, each
  -- read from the cursor that the one before answers, are together the rows of the tenant in the order of
  -- their ids, and as many pages as there are rows, and one more, are enough.
  pub all_pages_lem :
      all_pages before reference (suc m) s (suc (length (tenant_rows before reference s))) none
      ≡ tenant_rows before reference s
  all_pages_lem =
      pages_from (suc (length (tenant_rows before reference s))) [] (tenant_rows before reference s)
        none refl refl (omega arith)
