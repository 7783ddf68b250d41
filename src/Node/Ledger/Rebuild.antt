-- ===== src/Node/Ledger/Rebuild.antt =====
-- The head that `rebuild_head` of crates/mabel-node/src/ledger.rs finds, and the bound on what
-- `read_from` reads.
use mabel.Base.{
  ℕ, suc, ◌≤◌, ◌<◌, Option, none, some, [], ◌∷◌, ◌≡◌, ◌⊎◌, inl, inr, refl, sym, ap, ◌∙◌, arith,
  ◌==◌, Bool-cases,
}
use mathlib.Core.Path.{subst}
use mabel.Base.Bytes.{Bytes}
use mabel.Base.Map.{Map, get, IsAbove, IsOrdered}
use mabel.Crypto.{Crypto}
use mabel.Node.Ledger.{
  Head, Answer, Files, contiguous_from, contiguous_last, sequences, read_event, event_id_of,
  write_head,
}
use mabel.Node.Ledger.Append.{rebuild_from, rebuild_at, rebuild_head}
use mabel.Node.Ledger.Steps.{bind-answers}
use mabel.Node.Ledger.Reads.{read_event-answers}

-- There is an event file for each sequence from `low` to `last`, and none for the one behind.
abbrev pub IsRun : (low last : ℕ) → Map Bytes → Type 0
IsRun low last events =
    ((k : ℕ) → low ≤ k → k ≤ last → (b : Bytes) × (get k events ≡ some b))
    × (get (suc last) events ≡ none)

get-IsAbove : (a k : ℕ) (events : Map Bytes) → IsAbove a events → k ≤ a → get k events ≡ none
unfolding get
get-IsAbove a k [] h below = refl
get-IsAbove a k ((j, b) ∷ events) h below = ground (arith, get-IsAbove a k events h.1 below)

-- `IsAbove`, or the key itself comes first.
abbrev IsFrom : ℕ → Map Bytes → Type 0
IsFrom low [] = Unit
IsFrom low ((j, _) ∷ events) = low ≤ j

IsFrom-next : (j low : ℕ) (events : Map Bytes) → suc j ≡ low → IsAbove j events → IsFrom low events
IsFrom-next j low [] e h = tt
IsFrom-next j low ((i, _) ∷ events) e h = omega (arith, h.0, e)

-- A run grows at its low end by the file in front of it.
IsRun-one :
    (low : ℕ) (b : Bytes) (events : Map Bytes)
    → get (suc low) events ≡ none
    → IsRun low low ((low, b) ∷ events)
unfolding get
IsRun-one low b events gone = (λ k from to. (b, ground (arith, from, to)), ground (arith, gone))

IsRun-grows :
    (low last : ℕ) (b : Bytes) (events : Map Bytes)
    → low < last
    → IsRun (suc low) last events
    → IsRun low last ((low, b) ∷ events)
unfolding get
IsRun-grows low last b events h (has, gone) = (
  λ k from to. elim (Bool-cases (low == k)) [
    | inl here ↦ (b, ground (arith, here))
    | inr past ↦
        let (b', e) = has k (ground (arith, past, from)) to in (b', ground (arith, past, e))
  ],
  ground (arith, gone, h),
)

contiguous_from_lem :
    (index : ℕ) (acc : Option ℕ) (events : Map Bytes)
    → IsOrdered events
    → IsFrom index events
    → ((contiguous_from index acc (sequences events) ≡ acc) × (get index events ≡ none))
      ⊎ ((last : ℕ) × (contiguous_from index acc (sequences events) ≡ some last)
          × (index ≤ last)
          × IsRun index last events)
unfolding contiguous_from sequences get
contiguous_from_lem index acc [] ordered from = inl (refl, refl)
contiguous_from_lem index acc ((j, b) ∷ events) ordered from = elim (Bool-cases (j == index)) [
  | inl here ↦
      let is : j ≡ index = ground (arith, here) in
      let ih =
        contiguous_from_lem (suc index) (some j) events ordered.1
          (IsFrom-next j (suc index) events (ap suc is) ordered.0) in
      let ran : contiguous_from index acc (sequences ((j, b) ∷ events))
          ≡ contiguous_from (suc index) (some j) (sequences events) =
        ground (arith, here) in
      elim ih [
        | inl (e, gone) ↦ inr (
          index,
          ran ∙ e ∙ ap some is,
          omega arith,
          subst (λ low. IsRun index index ((low, b) ∷ events)) (sym is)
              (IsRun-one index b events gone),
        )
        | inr (last, e, le, behind) ↦ inr (
          last,
          ran ∙ e,
          omega (arith, le),
          subst (λ low. IsRun index last ((low, b) ∷ events)) (sym is)
              (IsRun-grows index last b events (omega (arith, le)) behind),
        )
      ]
  | inr past ↦
      let above : index < j = ground (arith, past, from) in
      let absent = get-IsAbove j index events ordered.0 (omega (arith, above)) in
      inl (ground (arith, past), ground (arith, past, absent))
]

IsFrom-zero : (events : Map Bytes) → IsFrom 0 events
IsFrom-zero [] = tt
IsFrom-zero ((j, b) ∷ events) = omega arith

module _ (c : Crypto) (decode : Bytes → Option Bytes) where
  rebuild_from-answers :
      (now last : ℕ) (bytes : Bytes) (files u : Files) (x : Option Head)
      → rebuild_from c decode now last bytes files ≡ (Answer.answer x, u)
      → (h : Head) × (x ≡ some h)
        × (h.seq ≡ last)
        × (event_id_of c decode last bytes ≡ Answer.answer h.event_id)
        × (u ≡ write_head h files)
  unfolding rebuild_from
  rebuild_from-answers now last bytes files u x e =
      let (id, t, s, e') = bind-answers (event_id_of c decode last bytes, files) _ x u e in
      let h : Head = (record { seq = last; event_id = id; updated_ms = now }) in
      (h, cc, refl, cc, cc)

  rebuild_at-answers :
      (now last : ℕ) (files u : Files) (x : Option Head)
      → rebuild_at c decode now (some last) files ≡ (Answer.answer x, u)
      → (h : Head) × (bytes : Bytes) × (x ≡ some h)
        × (h.seq ≡ last)
        × (get last files.events ≡ some bytes)
        × (event_id_of c decode last bytes ≡ Answer.answer h.event_id)
        × (u ≡ write_head h files)
  unfolding rebuild_at
  rebuild_at-answers now last files u x e =
      let (bytes, t, s, e') = bind-answers (read_event last files.events, files) _ x u e in
      let read : read_event last files.events ≡ Answer.answer bytes = cc in
      let (h, is, seq, id, wrote) = rebuild_from-answers now last bytes t u x e' in
      (h, bytes, is, seq, read_event-answers last bytes files.events read, id, cc)

  -- Where `rebuild_head` answers, it found the longest run of event files from 0 on. With no file
  -- for 0 it answers none and changes nothing. Else its head is the last event of that run: each
  -- sequence up to it has a file, the next has none, the id is that of the file's bytes, and the
  -- head is written and nothing else.
  pub rebuild_head-IsRun :
      (now : ℕ) (files u : Files) (x : Option Head)
      → IsOrdered files.events
      → rebuild_head c decode now files ≡ (Answer.answer x, u)
      → ((x ≡ none) × (u ≡ files) × (get 0 files.events ≡ none))
        ⊎ ((h : Head) × (bytes : Bytes) × (x ≡ some h)
            × (u ≡ write_head h files)
            × IsRun 0 h.seq files.events
            × (get h.seq files.events ≡ some bytes)
            × (event_id_of c decode h.seq bytes ≡ Answer.answer h.event_id))
  unfolding rebuild_head contiguous_last rebuild_at
  rebuild_head-IsRun now files u x ordered e =
      elim (contiguous_from_lem 0 none files.events ordered (IsFrom-zero files.events)) [
        | inl (found, gone) ↦
            let at : rebuild_at c decode now none files ≡ (Answer.answer x, u) =
              ap (λ o. rebuild_at c decode now o files) (sym found) ∙ e in
            inl (cc, cc, gone)
        | inr (last, found, _, run) ↦
            let at : rebuild_at c decode now (some last) files ≡ (Answer.answer x, u) =
              ap (λ o. rebuild_at c decode now o files) (sym found) ∙ e in
            let (h, bytes, is, seq, got, id, wrote) = rebuild_at-answers now last files u x at in
            inr (
              h,
              bytes,
              is,
              wrote,
              subst (λ n. IsRun 0 n files.events) (sym seq) run,
              ap (λ n. get n files.events) seq ∙ got,
              ap (λ n. event_id_of c decode n bytes) seq ∙ id,
            )
      ]
