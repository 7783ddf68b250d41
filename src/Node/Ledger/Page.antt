-- ===== src/Node/Ledger/Page.antt =====
-- One page of a ledger: `read_from` of crates/mabel-node/src/ledger.rs under a limit.
use mabel.Base.{
  ℕ, zero, suc, ◌-◌, ◌≤◌, ◌<◌, ◌^◌, Option, some, List, [], ◌∷◌, ◌≡◌, refl, ap, ◌∙◌, arith, inl,
  inr, Bool-cases, leb, if◌then◌else◌,
}
use mabel.Base.Bytes.{Bytes, length}
use mabel.Base.Map.{Map, get}
use mabel.Crypto.{Crypto}
use mabel.Node.Ledger.{Head, Answer, Files, StoredEvent, push, at_limit, next_u64}
use mabel.Node.Ledger.Append.{head, read_up_to, read_from}
use mabel.Node.Ledger.Steps.{bind-runs, head-events}
use mabel.Node.Ledger.Heads.{count}
use mabel.Node.Ledger.Reads.{read_run, read_event-some}
use mabel.Node.Ledger.Loop.{read_up_to-run}

-- The events run on from `seq`, each with the bytes of its file.
abbrev pub IsPage : ℕ → List StoredEvent → Map Bytes → Type 0
IsPage seq [] events = Unit
IsPage seq (event ∷ page) events =
    (event.seq ≡ seq) × (get seq events ≡ some event.bytes) × IsPage (suc seq) page events

abbrev pub least : ℕ → ℕ → ℕ
least m n = if leb m n then m else n

pushes :
    {seq : ℕ} {b : Bytes} {page : List StoredEvent} {read : Answer Bytes}
    {rest : Answer (List StoredEvent)}
    → read ≡ Answer.answer b
    → rest ≡ Answer.answer page
    → push seq read rest ≡ Answer.answer ((record { seq = seq; bytes = b }) ∷ page)
unfolding push
pushes read behind = cc

read_run-IsPage :
    (left seq end limit pushed : ℕ) (events : Map Bytes)
    → pushed ≤ limit
    → left ≡ end - seq
    → end < 2 ^ 64
    → ((k : ℕ) → seq ≤ k → k < end → (b : Bytes) × (get k events ≡ some b))
    → (out : List StoredEvent) × (read_run left seq (some limit) pushed events ≡ Answer.answer out)
      × IsPage seq out events
      × (length out ≡ least (limit - pushed) left)
unfolding read_run
read_run-IsPage zero seq end limit pushed events most is room held = ([], refl, tt, ground arith)
read_run-IsPage (suc left) seq end limit pushed events most is room held =
    elim (Bool-cases (at_limit (some limit) pushed)) [
      | inl full ↦ ([], ground (arith, full), tt, ground (arith, full))
      | inr more ↦
          let (b, got) = held seq (omega arith) (omega (arith, is)) in
          let below : suc pushed ≤ limit = ground (arith, more) in
          let next : next_u64 seq ≡ suc seq = omega (arith, room, is) in
          let (page, behind, is_page, size) =
            read_run-IsPage left (suc seq) end limit (suc pushed) events below (omega (arith, is))
              room (λ k from to. held k (omega (arith, from)) to) in
          let behind' : read_run left (next_u64 seq) (some limit) (suc pushed) events
              ≡ Answer.answer page =
            ap (λ n. read_run left n (some limit) (suc pushed) events) next ∙ behind in
          let read = read_event-some seq b events got in
          (
            (record { seq = seq; bytes = b }) ∷ page,
            rw more (pushes read behind'),
            (refl, got, is_page),
            ground (arith, size, below),
          )
    ]

module _ (c : Crypto) (decode : Bytes → Option Bytes) where
  -- Where the head's next sequence is below 2^64 and there is an event file for each sequence from
  -- `since` up to the head, `read_from` answers. Its page has `limit` events, or all of those where
  -- they are fewer, in order from `since` on and each with the bytes of its file. The files are as
  -- reading the head leaves them.
  pub read_from-IsPage :
      (now since limit : ℕ) (files u : Files) (h : Option Head)
      → head c decode now files ≡ (Answer.answer h, u)
      → count h < 2 ^ 64
      → ((k : ℕ) → since ≤ k → k < count h → (b : Bytes) × (get k files.events ≡ some b))
      → (out : List StoredEvent) × (read_from c decode now since (some limit) files
          ≡ (Answer.answer out, u))
        × IsPage since out files.events
        × (length out ≡ least limit (count h - since))
  unfolding read_from
  read_from-IsPage now since limit files u h headed room held =
      let (out, run, page, size) =
        read_run-IsPage (count h - since) since (count h) limit 0 files.events (omega arith) refl
          room held in
      let same = head-events c decode now files in
      let kept : u.events ≡ files.events = cc in
      let read : read_up_to h since (some limit) u.events ≡ Answer.answer out =
        ap (read_up_to h since (some limit)) kept
        ∙ read_up_to-run h since (some limit) files.events room
        ∙ run in
      let whole : limit - 0 ≡ limit = omega arith in
      (
        out,
        bind-runs (head c decode now files) _ h u headed ∙ ap (λ answer. (answer, u)) read,
        page,
        size ∙ ap (λ n. least n (count h - since)) whole,
      )
