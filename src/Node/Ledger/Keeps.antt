-- ===== src/Node/Ledger/Keeps.antt =====
-- What every outcome of `append`, crates/mabel-node/src/ledger.rs, leaves in place.
use mabel.Base.{ℕ, Option, some, List, [], ◌∷◌, ◌≡◌}
use mabel.Base.Bytes.{Bytes}
use mabel.Base.Map.{get}
use mabel.Crypto.{Crypto}
use mabel.Node.Ledger.{Head, NewEvent, Answer, Files, write_head}
use mabel.Node.Ledger.Append.{head, next_seq, check_batch, write_after, write_events, append}
use mabel.Node.Ledger.Steps.{bind-all, head-events}
use mabel.Node.Ledger.Writes.{check_batch-IsBatch, write_all-keeps}

module _ (c : Crypto) (decode : Bytes → Option Bytes) where
  write_after-keeps :
      (h : Option Head) (now : ℕ) (event : NewEvent) (events : List NewEvent) (files : Files)
      (k : ℕ) (b : Bytes)
      → get k files.events ≡ some b
      → get k (write_after c decode h now event events files).1.events ≡ some b
  unfolding write_after
  write_after-keeps h now event events files k b held =
      bind-all (λ u. get k u.events ≡ some b)
        (check_batch c decode (next_seq h) (event ∷ events) files.events, files) _ held
        (λ passed u e.
          let checked : check_batch c decode (next_seq h) (event ∷ events) u.events
              ≡ Answer.answer tt =
            cc in
          let batch = check_batch-IsBatch c decode (next_seq h) (event ∷ events) u.events checked in
          let still : get k u.events ≡ some b = cc in
          write_all-keeps c decode (next_seq h) (event ∷ events) u.events u.events k b batch still
            still)

  write_events-keeps :
      (rebuilt now : ℕ) (event : NewEvent) (events : List NewEvent) (files : Files) (k : ℕ)
      (b : Bytes)
      → get k files.events ≡ some b
      → get k (write_events c decode rebuilt now event events files).1.events ≡ some b
  unfolding write_events
  write_events-keeps rebuilt now event events files k b h =
      let same = head-events c decode rebuilt files in
      let here : get k (head c decode rebuilt files).1.events ≡ some b = cc in
      bind-all (λ u. get k u.events ≡ some b) (head c decode rebuilt files) _ here
        (λ head u e.
          let still : get k u.events ≡ some b = cc in
          write_after-keeps head now event events u k b still)

  -- Whatever `append` answers, bytes that an event file held are the bytes it still holds: no file
  -- of the chain is replaced or dropped, by an accepted batch or by a refused one.
  pub append-keeps :
      (rebuilt now : ℕ) (events : List NewEvent) (files : Files) (k : ℕ) (b : Bytes)
      → get k files.events ≡ some b
      → get k (append c decode rebuilt now events files).1.events ≡ some b
  unfolding append write_head
  append-keeps rebuilt now [] files k b h = let same = head-events c decode rebuilt files in cc
  append-keeps rebuilt now (event ∷ events) files k b h =
      let kept = write_events-keeps rebuilt now event events files k b h in
      bind-all (λ u. get k u.events ≡ some b) (write_events c decode rebuilt now event events files)
        _ kept (λ h u e. cc)
