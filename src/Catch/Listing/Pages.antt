-- ===== src/Catch/Listing/Pages.antt =====
-- src/storage/catch-repository.ts, listEvents: what a page of events holds.
use the402machine.Base.{
  ℕ, zero, suc, ◌+◌, ◌≤◌, ◌<◌, min, String, Bool, true, false, none, some, List, [], ◌∷◌, ltb, leb,
  length, take, filter, All, length-take, ◌≡◌, ◌↔◌, refl, arith, inl, inr, Bool-cases,
}
use the402machine.Catch.Model.{Resource, Event, Db}
use the402machine.Catch.Store.{is_live, locate}
use the402machine.Catch.Listing.{
  CatchEventListOptions, Texts, filters_of, selected, insert_latest, latest_first, last_number,
  page_of, page_limit, list_events,
}

module _ {ℓ κ} {A : Type ℓ} (P : A → Type κ) where
  take-All : (n : ℕ) (xs : List A) → All P xs → All P (take n xs)
  take-All zero xs h = tt
  take-All (suc n) [] h = tt
  take-All (suc n) (x ∷ xs) h = (h.0, take-All n xs h.1)

filter-All {ℓ} : {A : Type ℓ} (p : A → Bool) (xs : List A) → All (λ x. p x ≡ true) (filter p xs)
filter-All p [] = tt
filter-All p (x ∷ xs) = elim (Bool-cases (p x)) [
  | inl t ↦ rw t (t, filter-All p xs)
  | inr t ↦ rw t (filter-All p xs)
]

module _ (tx : Texts) where
  insert_latest-All {κ} :
      (P : Event → Type κ) (e : Event) (xs : List Event)
      → P e
      → All P xs
      → All P (insert_latest tx e xs)
  unfolding insert_latest
  insert_latest-All P e [] p h = (p, tt)
  insert_latest-All P e (x ∷ xs) p h = elim (Bool-cases (leb x.sequence_number e.sequence_number)) [
    | inl t ↦ rw t (p, h)
    | inr t ↦ rw t (h.0, insert_latest-All P e xs p h.1)
  ]

  latest_first-All {κ} :
      (P : Event → Type κ) (xs : List Event) → All P xs → All P (latest_first tx xs)
  unfolding latest_first
  latest_first-All P [] h = tt
  latest_first-All P (x ∷ xs) h = insert_latest-All P x _ h.0 (latest_first-All P xs h.1)

  length-insert_latest :
      (e : Event) (xs : List Event) → length (insert_latest tx e xs) ≡ length xs + 1
  unfolding insert_latest
  length-insert_latest e [] = omega arith
  length-insert_latest e (x ∷ xs) = ground (arith, length-insert_latest e xs)

  length-latest_first : (xs : List Event) → length (latest_first tx xs) ≡ length xs
  unfolding latest_first
  length-latest_first [] = refl
  length-latest_first (x ∷ xs) =
      omega (arith, length-insert_latest x (latest_first tx xs), length-latest_first xs)

  last_number-some : (xs : List Event) → last_number tx xs ≡ none → length xs ≡ 0
  unfolding last_number
  last_number-some [] h = refl
  last_number-some (e ∷ []) h = cc
  last_number-some (e ∷ x ∷ xs) h = absurd (omega (arith, last_number-some (x ∷ xs) h))

  -- For a live resource that is not over, a page holds only events of that resource that pass the
  -- filters and lie before the cursor; it has as many of them as there are, up to the limit, which
  -- is at most 50; and it gives a cursor for the next page exactly when there are more.
  pub list_events-page :
      (now : ℕ) (public_id : String) (options : CatchEventListOptions) (db : Db) (r : Resource)
      → locate public_id db ≡ some r
      → now < r.expires_at
      → is_live r.status ≡ true
      → let page = (list_events tx now public_id options db).0 in
        let all = filter (selected tx r.id (filters_of tx options)) db.events in
        All (λ e. selected tx r.id (filters_of tx options) e ≡ true) page.events
        × (length page.events ≡ min (page_limit tx options.limit) (length all))
        × (page_limit tx options.limit ≤ 50)
        × ((page.next_cursor ≡ none) ↔ (length all ≤ page_limit tx options.limit))
  unfolding list_events page_of
  list_events-page now public_id options db r e n live =
      let early : leb r.expires_at now ≡ false = ground arith in
      let limit = page_limit tx options.limit in
      let all = filter (selected tx r.id (filters_of tx options)) db.events in
      let rows = take (limit + 1) (latest_first tx all) in
      let kept = length-take (limit + 1) (latest_first tx all) in
      let sorted = length-latest_first all in
      let here = length-take limit rows in
      rw (e, early, live)
        (
          take-All _ limit rows (
              take-All _ (limit + 1) _ (
                latest_first-All _ all
                  (filter-All (selected tx r.id (filters_of tx options)) db.events))),
          omega (arith, kept, sorted, here),
          omega arith,
          elim (Bool-cases (ltb limit (length rows))) [
            | inl t ↦
                let more : limit < length rows = ground arith in
                rw t (
                  λ q. absurd (omega (arith, more, last_number-some (take limit rows) q, here)),
                  λ q. absurd (omega (arith, more, q, kept, sorted)),
                )
            | inr t ↦ rw t (λ q. ground (arith, kept, sorted), λ q. refl)
          ],
        )
