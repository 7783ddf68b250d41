-- ===== src/Node/Ledger/Heads.antt =====
-- The head that `head` of crates/mabel-node/src/ledger.rs answers with, cached or rebuilt.
use mabel.Base.{ℕ, suc, Option, none, some, ◌≡◌, ap}
use mabel.Base.Bytes.{Bytes}
use mabel.Crypto.{Crypto}
use mabel.Node.Ledger.{
  Head, Answer, Files, read_event, event_id_of, sequences, contiguous_last, cached_head,
}
use mabel.Node.Ledger.Append.{rebuild_from, rebuild_at, rebuild_head, cached_or, head}
use mabel.Node.Ledger.Steps.{bind-answers}

-- The number of events that a head stands for.
abbrev pub count : Option Head → ℕ
count none = 0
count (some h) = suc h.seq

-- The same for the last sequence of a run.
abbrev run : Option ℕ → ℕ
run none = 0
run (some last) = suc last

abbrev count_of : Option Head → Option ℕ → ℕ
count_of none last = run last
count_of (some h) last = suc h.seq

module _ (c : Crypto) (decode : Bytes → Option Bytes) where
  rebuild_from-count :
      (now last : ℕ) (bytes : Bytes) (files : Files) (x : Option Head) (u : Files)
      → rebuild_from c decode now last bytes files ≡ (Answer.answer x, u)
      → count x ≡ suc last
  unfolding rebuild_from
  rebuild_from-count now last bytes files x u e =
      let (id, t, s, e') = bind-answers (event_id_of c decode last bytes, files) _ x u e in
      let made : x ≡ some (record { seq = last; event_id = id; updated_ms = now }) = cc in
      ap count made

  rebuild_at-count :
      (now : ℕ) (o : Option ℕ) (files : Files) (x : Option Head) (u : Files)
      → rebuild_at c decode now o files ≡ (Answer.answer x, u)
      → count x ≡ run o
  unfolding rebuild_at
  rebuild_at-count now none files x u e = let made : x ≡ none = cc in ap count made
  rebuild_at-count now (some last) files x u e =
      let (bytes, t, s, e') = bind-answers (read_event last files.events, files) _ x u e in
      rebuild_from-count now last bytes t x u e'

  cached_or-count :
      (now : ℕ) (o : Option Head) (files : Files) (x : Option Head) (u : Files)
      → cached_or c decode now o files ≡ (Answer.answer x, u)
      → count x ≡ count_of o (contiguous_last (sequences files.events))
  unfolding cached_or rebuild_head
  cached_or-count now none files x u e =
      rebuild_at-count now (contiguous_last (sequences files.events)) files x u e
  cached_or-count now (some h) files x u e = let made : x ≡ some h = cc in ap count made

  -- Two readings of one ledger's head agree on how many events there are.
  pub head-agrees :
      (now later : ℕ) (files : Files) (x y : Option Head) (t u : Files)
      → head c decode now files ≡ (Answer.answer x, t)
      → head c decode later files ≡ (Answer.answer y, u)
      → count x ≡ count y
  unfolding head
  head-agrees now later files x y t u e e' =
      let (o, f, s, d) = bind-answers (cached_head files, files) _ x t e in
      let (o', f', s', d') = bind-answers (cached_head files, files) _ y u e' in
      let n = cached_or-count now o f x t d in
      let n' = cached_or-count later o' f' y u d' in
      let same_head : o ≡ o' = cc in let same_files : f ≡ f' = cc in cc
