-- ===== src/Store/Inbox/Choice.antt =====
-- Which message `claim_next_inbox` takes, by the order of its query.
use mathlib.Core.List.{Memᴰ}
use mathlib.Core.List.Memᴰ
use deferred_teleoperation.Base.{
  All, All-of_mem, ℕ, ◌≡◌, ◌≤◌, ◌<◌, Bool, true, false, ◌&&◌, ◌||◌, none, some, List, [], ◌∷◌,
  arith, ◌==◌, ltb, leb, Bool-cases, Option-cases, inl, inr, ◌⊎◌, select, mem-select_intro,
}
use deferred_teleoperation.Time.{text_leb, text_ltb, tail_rank}
use deferred_teleoperation.Wire.{MessageEnvelope, Codec}
use deferred_teleoperation.Store.Schema.{InboxRow, Db}
use deferred_teleoperation.Store.Monad.{ok}
use deferred_teleoperation.Store.Outbox.{decode_envelope}
use deferred_teleoperation.Store.Inbox.{
  goes_before, retry_rank, first, claimable, claim_next_inbox, claimed,
}
use deferred_teleoperation.Store.Inbox.Rows.{kept, IsUnique, next_row, find-claimed}

-- The lexicographic order of four numbers.
abbrev Lex : ℕ → ℕ → ℕ → ℕ → ℕ → ℕ → ℕ → ℕ → Type 0
Lex r s f i r' s' f' i' =
    (r < r') ⊎ ((r ≡ r') × ((s < s') ⊎ ((s ≡ s') × ((f < f') ⊎ ((f ≡ f') × (i ≤ i'))))))

abbrev Before : InboxRow → InboxRow → Type 0
Before a b =
    Lex (retry_rank a.processing_state) a.received_at.second (tail_rank a.received_at.fraction)
      a.message_id (retry_rank b.processing_state) b.received_at.second
      (tail_rank b.received_at.fraction) b.message_id

module _ (r s f i r' s' f' i' : ℕ) where
  lex_test : Bool
  lex_test =
      ltb r r'
      || (r == r'
          && ((ltb s s' || (s == s' && ltb f f'))
              || ((ltb s s' || (s == s' && leb f f')) && leb i i')))

  Lex-of_test : lex_test ≡ true → Lex r s f i r' s' f' i'
  unfolding lex_test
  Lex-of_test h = ground arith

  test_of_Lex : Lex r s f i r' s' f' i' → lex_test ≡ true
  unfolding lex_test
  test_of_Lex h = ground arith

Lex-trans :
    (r s f i r' s' f' i' r'' s'' f'' i'' : ℕ)
    → Lex r s f i r' s' f' i'
    → Lex r' s' f' i' r'' s'' f'' i''
    → Lex r s f i r'' s'' f'' i''
Lex-trans r s f i r' s' f' i' r'' s'' f'' i'' h k = ground arith

goes_before_Lex : (a b : InboxRow) → goes_before a b ≡ true → Before a b
unfolding goes_before text_ltb text_leb lex_test
goes_before_Lex a b h =
    Lex-of_test (retry_rank a.processing_state) a.received_at.second
      (tail_rank a.received_at.fraction) a.message_id (retry_rank b.processing_state)
      b.received_at.second (tail_rank b.received_at.fraction) b.message_id h

goes_before_of_Lex : (a b : InboxRow) → Before a b → goes_before a b ≡ true
unfolding goes_before text_ltb text_leb lex_test
goes_before_of_Lex a b h =
    test_of_Lex (retry_rank a.processing_state) a.received_at.second
      (tail_rank a.received_at.fraction) a.message_id (retry_rank b.processing_state)
      b.received_at.second (tail_rank b.received_at.fraction) b.message_id h

goes_before_trans :
    (a b c : InboxRow) → goes_before a b ≡ true → goes_before b c ≡ true → goes_before a c ≡ true
goes_before_trans a b c h k = goes_before_of_Lex a c (
    Lex-trans (retry_rank a.processing_state) a.received_at.second
      (tail_rank a.received_at.fraction) a.message_id (retry_rank b.processing_state)
      b.received_at.second (tail_rank b.received_at.fraction) b.message_id
      (retry_rank c.processing_state) c.received_at.second (tail_rank c.received_at.fraction)
      c.message_id (goes_before_Lex a b h) (goes_before_Lex b c k))

goes_before_total : (a b : InboxRow) → goes_before a b ≡ false → goes_before b a ≡ true
unfolding goes_before text_ltb text_leb
goes_before_total a b h = ground arith

goes_before_refl : (a : InboxRow) → goes_before a a ≡ true
unfolding goes_before text_ltb text_leb
goes_before_refl a = ground arith

-- Only an empty list has no first row.
nothing_left : (rows : List InboxRow) (x : InboxRow) → first rows ≡ none → Memᴰ x rows → ⊥
unfolding first
nothing_left [] x h m = elim m [ ]
nothing_left (y ∷ rows) x h m = ground arith

first_least :
    (r x : InboxRow) (rows : List InboxRow)
    → first rows ≡ some r
    → Memᴰ x rows
    → goes_before r x ≡ true
unfolding first
first_least r x [] h m = elim m [ ]
first_least r x (y ∷ rows) h m = elim (Option-cases (first rows)) [
  | inl nothing ↦ elim (Memᴰ.cases_cons m) [
    | inl same ↦ let e : r ≡ y = ground arith in rw (e, same) (goes_before_refl y)
    | inr later ↦ absurd (nothing_left rows x nothing later)
  ]
  | inr (best, e) ↦ elim (Bool-cases (goes_before y best)) [
    | inl sooner ↦
        let is_y : r ≡ y = ground arith in
        elim (Memᴰ.cases_cons m) [
          | inl same ↦ rw (is_y, same) (goes_before_refl y)
          | inr later ↦
              rw is_y (goes_before_trans y best x sooner (first_least best x rows e later))
        ]
    | inr behind ↦
        let is_best : r ≡ best = ground arith in
        elim (Memᴰ.cases_cons m) [
          | inl same ↦ rw (is_best, same) (goes_before_total y best behind)
          | inr later ↦ rw is_best (first_least best x rows e later)
        ]
  ]
]

-- On a store with unique inbox identifiers, a message that `claim_next_inbox` returns is that of a
-- stored row which was received or failed and which comes no later than every other such row in
-- the order of the query, and that row is now being processed.
pub claim_next_inbox_lem :
    (codec : Codec) (e : MessageEnvelope) (db : Db)
    → IsUnique db
    → (claim_next_inbox codec db).0 ≡ ok (some e)
    → (r : InboxRow) × (codec.model_validate_json r.payload_json ≡ some e)
      × (claimable r ≡ true)
      × All (λ x. goes_before r x ≡ true) (select claimable db.inbox)
      × (kept r.message_id (claim_next_inbox codec db).1 ≡ some (claimed r))
unfolding claim_next_inbox decode_envelope
claim_next_inbox_lem codec e db h ran = elim (Option-cases (first (select claimable db.inbox))) [
  | inl nothing ↦ absurd (ground arith)
  | inr (r, picked) ↦
      let row = next_row r db h picked in
      (
        r,
        ground arith,
        row.1,
        All-of_mem (λ x. goes_before r x ≡ true) (select claimable db.inbox)
            (λ x m. first_least r x (select claimable db.inbox) picked m),
        ground (arith, row.0, find-claimed r.message_id r.message_id db.inbox),
      )
]

-- A claim that returns nothing finds no free message at all.
pub claim_next_inbox-none :
    (codec : Codec) (x : InboxRow) (db : Db)
    → (claim_next_inbox codec db).0 ≡ ok none
    → Memᴰ x db.inbox
    → claimable x ≡ false
unfolding claim_next_inbox decode_envelope
claim_next_inbox-none codec x db ran m = elim (Bool-cases (claimable x)) [
  | inr busy ↦ busy
  | inl free ↦
      let waiting = mem-select_intro claimable x db.inbox m free in
      elim (Option-cases (first (select claimable db.inbox))) [
        | inl nothing ↦ absurd (nothing_left (select claimable db.inbox) x nothing waiting)
        | inr (r, picked) ↦ absurd (ground arith)
      ]
]
