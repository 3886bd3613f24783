-- ===== src/Postgres/Listing/Pages.antt =====
-- The pages of a listing, where the store answers.
use bulk.Base.{
  ℕ, zero, suc, ◌+◌, ◌*◌, ◌^◌, ◌≤◌, ◌<◌, String, ◌≡◌, refl, Bool, List, [], ◌∷◌, ◌++◌, map, length,
  take, drop, select, Option, none, arith, length-map, length-take, if◌then◌else◌, str_eq, ap, ◌∙◌,
  take-nil, sym,
}
use bulk.Base.Int.{ℤ, pos, pos_part, ◌-ℤ◌, ◌*ℤ◌, wrap_64, wrap_64-pos}
use bulk.Domain.{Batch, Time}
use bulk.World.{World, Env, Result, ok, err}
use bulk.World.Rows.{BatchRow}
use bulk.Postgres.Convert.{to_domain, scan_batch}
use bulk.Postgres.Listing.Order.{StrictlySorted, SameRows, StrictlySorted-unique}
use bulk.Postgres.Listing.{
  BatchFilter, OrderBy, row_matches, sort_column, with_defaults, list_with_filters, list_page,
  list_batches,
}

-- The batches of an answer.
abbrev pub batches_of : Result (List Batch × ℕ) → List Batch
batches_of (ok (bs, total)) = bs
batches_of (err e) = []

take-drop : {A : Type 0} (m l : ℕ) (xs : List A) → take m xs ++ take l (drop m xs) ≡ take (m + l) xs
take-drop zero l xs = ap (λ n. take n xs) {x = l} {y = 0 + l} (omega arith)
take-drop (suc m) l [] = take-nil l ∙ sym (take-nil (suc m + l))
take-drop (suc m) l (x ∷ xs) =
    ap (◌∷◌ x) (take-drop m l xs)
    ∙ ap (λ n. take n (x ∷ xs)) {x = suc (m + l)} {y = suc m + l} (omega arith)

map-take : {A B : Type 0} (f : A → B) (n : ℕ) (xs : List A) → map f (take n xs) ≡ take n (map f xs)
map-take f zero xs = refl
map-take f (suc n) [] = refl
map-take f (suc n) (x ∷ xs) = ap (◌∷◌ (f x)) (map-take f n xs)

map-drop : {A B : Type 0} (f : A → B) (n : ℕ) (xs : List A) → map f (drop n xs) ≡ drop n (map f xs)
map-drop f zero xs = refl
map-drop f (suc n) [] = refl
map-drop f (suc n) (x ∷ xs) = map-drop f n xs

pages_before : (n : ℕ) → pos (suc n) -ℤ pos 1 ≡ pos n
unfolding ◌-ℤ◌
pages_before n = ground arith

product : (n l : ℕ) → pos n *ℤ pos (suc l) ≡ pos (n * suc l)
unfolding ◌*ℤ◌
product n l = ground arith

offset_of :
    (n l : ℕ)
    → n * suc l < 2 ^ 63
    → wrap_64 (wrap_64 (pos (suc n) -ℤ pos 1) *ℤ pos (suc l)) ≡ pos (n * suc l)
offset_of n l small =
    ap (λ a. wrap_64 (wrap_64 a *ℤ pos (suc l))) (pages_before n)
    ∙ ap (λ a. wrap_64 (a *ℤ pos (suc l))) (wrap_64-pos n fits)
    ∙ ap wrap_64 (product n l)
    ∙ wrap_64-pos (n * suc l) small
  where
    fits : n < 2 ^ 63
    fits = omega (arith, small)

abbrev pub key : BatchFilter → BatchRow → Option Time
key f = sort_column f.sort_by

-- The rows that match the filter.
abbrev pub matching : (String → Option Time) → BatchFilter → World → List BatchRow
matching parse_time f w =
    select (row_matches f (if str_eq f.cursor "" then none else parse_time f.cursor)) w.batches

-- In each call the database gives the rows that match in the order of their keys, no two of which are
-- the same.
abbrev pub IsOrdering : OrderBy → (String → Option Time) → BatchFilter → World → Type 1
IsOrdering order_by parse_time f w =
    (c : ℕ)
    → StrictlySorted (key f) f.sort_desc (order_by c (key f) f.sort_desc (matching parse_time f w))
      × SameRows (order_by c (key f) f.sort_desc (matching parse_time f w))
          (matching parse_time f w)

abbrev pub to_batch : BatchRow → Batch
to_batch r = to_domain (scan_batch r)

module _ (env : Env) (order_by : OrderBy) (parse_time : String → Option Time)
    (f : BatchFilter) where
  -- Page number n, asked for in a state.
  abbrev pub page : ℕ → World → Result (List Batch × ℕ) × World
  page n w = list_batches env order_by parse_time (record f { page = pos n }) w

  -- The pages up to number n, asked for one after another, and the state after them.
  abbrev pub pages : ℕ → World → List Batch × World
  pages zero w = ([], w)
  pages (suc n) w =
      let (before, v) = pages n w in (before ++ batches_of (page (suc n) v).0, (page (suc n) v).1)

  -- A filter with a page and a limit above 0 stays as it is.
  with_defaults_positive :
      (n l : ℕ)
      → f.limit ≡ pos (suc l)
      → with_defaults (record f { page = pos (suc n) }) ≡ record f { page = pos (suc n) }
  unfolding with_defaults
  with_defaults_positive n l hl = ground (arith, hl)

  module _ (up : (n : ℕ) → env.store_fault n ≡ none) (l : ℕ) (hl : f.limit ≡ pos (suc l)) where
    list_page_up :
        (n m : ℕ) (w : World)
        → wrap_64 (wrap_64 (pos n -ℤ pos 1) *ℤ f.limit) ≡ pos m
        → let ordered = order_by (suc w.calls) (key f) f.sort_desc (matching parse_time f w) in
          list_page env order_by parse_time (record f { page = pos n }) w ≡ (
            ok (map to_batch (take (suc l) (drop m ordered)), length (matching parse_time f w)),
            record w { calls = suc (suc w.calls) },
          )
    unfolding list_page list_with_filters row_matches
    list_page_up n m w offset = ground (arith, offset, hl, up w.calls, up (suc w.calls))

    page_lem :
        (n : ℕ) (w : World)
        → n * suc l < 2 ^ 63
        → let ordered = order_by (suc w.calls) (key f) f.sort_desc (matching parse_time f w) in
          page (suc n) w ≡ (
            ok (
              map to_batch (take (suc l) (drop (n * suc l) ordered)),
              length (matching parse_time f w),
            ),
            record w { calls = suc (suc w.calls) },
          )
    unfolding list_batches
    page_lem n w small =
        ap (λ g. list_page env order_by parse_time g w) (with_defaults_positive n l hl)
        ∙ list_page_up (suc n) (n * suc l) w (rw hl (offset_of n l small))

pages_lem :
    (env : Env) (order_by : OrderBy) (parse_time : String → Option Time) (f : BatchFilter)
    (w : World) (l : ℕ) (sorted : List BatchRow) (n : ℕ)
    → ((n : ℕ) → env.store_fault n ≡ none)
    → f.limit ≡ pos (suc l)
    → ((c : ℕ) → order_by c (key f) f.sort_desc (matching parse_time f w) ≡ sorted)
    → n * suc l < 2 ^ 63
    → let r = pages env order_by parse_time f n w in
      (r.0 ≡ take (n * suc l) (map to_batch sorted)) × (r.1.batches ≡ w.batches)
pages_lem env order_by parse_time f w l sorted zero up hl answers small =
    (ap (λ k. take k (map to_batch sorted)) {x = 0} {y = 0 * suc l} (omega arith), refl)
pages_lem env order_by parse_time f w l sorted (suc n) up hl answers small =
    let v = (pages env order_by parse_time f n w).1 in
    let (got, kept) =
      pages_lem env order_by parse_time f w l sorted n up hl answers (omega (arith, small)) in
    let asked = page_lem env order_by parse_time f up l hl n v (omega (arith, small)) in
    let all = map to_batch sorted in
    let rows : matching parse_time f v ≡ matching parse_time f w = ap (select _) kept in
    (
      rw (asked, rows, answers, got)
          (rw (map-take to_batch (suc l), map-drop to_batch (n * suc l))
            (take-drop (n * suc l) (suc l) all
              ∙ ap (λ k. take k all) {x = n * suc l + suc l} {y = suc n * suc l} (omega arith))),
      rw asked kept,
    )

-- With a store that answers, if in each call the database gives the rows that match in the order of their
-- keys, no two of which are the same, the first n pages of a listing with a limit above 0, asked for one
-- after another, are the first n times `limit` of the matching batches in that order: no batch is on two
-- of the pages, and none is left out. It is asked that n times `limit` fits into a word of 64 bits.
pub pages-take :
    (env : Env) (order_by : OrderBy) (parse_time : String → Option Time) (f : BatchFilter)
    (w : World) (n l : ℕ) (sorted : List BatchRow)
    → ((n : ℕ) → env.store_fault n ≡ none)
    → f.limit ≡ pos (suc l)
    → n * suc l < 2 ^ 63
    → IsOrdering order_by parse_time f w
    → StrictlySorted (key f) f.sort_desc sorted
    → SameRows sorted (matching parse_time f w)
    → (pages env order_by parse_time f n w).0 ≡ take (n * suc l) (map to_batch sorted)
pages-take env order_by parse_time f w n l sorted up hl small orders in_order same =
    (pages_lem env order_by parse_time f w l sorted n up hl
      (λ c.
        StrictlySorted-unique (key f) f.sort_desc _ sorted (orders c).0 in_order
          ((λ P h. same.1 P ((orders c).1.0 P h)), (λ P h. (orders c).1.1 P (same.0 P h))))
      small).0

length-drop : {A : Type 0} (n : ℕ) (xs : List A) → length (drop n xs) ≤ length xs
length-drop zero xs = omega arith
length-drop (suc n) [] = omega arith
length-drop (suc n) (x ∷ xs) = omega (arith, length-drop n xs)

module _ (env : Env) (order_by : OrderBy)
    (keeps : (n : ℕ) (column : BatchRow → Option Time) (desc : Bool) (rows : List BatchRow)
      → length (order_by n column desc rows) ≡ length rows) where
  list_with_filters-bounded :
      (f : BatchFilter) (cursor : Option Time) (limit : ℕ) (offset : ℤ) (w : World)
      (bs : List Batch) (total : ℕ)
      → (list_with_filters env order_by f cursor limit offset w).0 ≡ ok (bs, total)
      → (length bs ≤ limit) × (length bs ≤ total)
  unfolding list_with_filters
  list_with_filters-bounded f cursor limit offset w bs total h =
      let rows = select (row_matches f cursor) w.batches in
      let ordered = order_by (suc w.calls) (sort_column f.sort_by) f.sort_desc rows in
      let page = take limit (drop (pos_part offset) ordered) in
      let to_batch : BatchRow → Batch = λ r. to_domain (scan_batch r) in
      let count = keeps (suc w.calls) (sort_column f.sort_by) f.sort_desc rows in
      ground (
        arith,
        count,
        length-map page to_batch,
        length-take limit (drop (pos_part offset) ordered),
        length-drop (pos_part offset) ordered,
      )

  -- Whatever is asked for, a listing that is answered has no more batches than its limit, which is 20
  -- where none above 0 is given, and no more than its total.
  pub list_batches-bounded :
      (parse_time : String → Option Time) (f : BatchFilter) (w : World) (bs : List Batch)
      (total : ℕ)
      → (list_batches env order_by parse_time f w).0 ≡ ok (bs, total)
      → (length bs ≤ pos_part (with_defaults f).limit) × (length bs ≤ total)
  unfolding list_batches list_page
  list_batches-bounded parse_time f w bs total h =
      let g = with_defaults f in
      list_with_filters-bounded g (if str_eq g.cursor "" then none else parse_time g.cursor)
        (pos_part g.limit) (wrap_64 (wrap_64 (g.page -ℤ pos 1) *ℤ g.limit)) w bs total h
