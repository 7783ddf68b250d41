-- ===== src/Node/Ledger/Steps.antt =====
-- Rules for a chain of steps of crates/mabel-node/src/ledger.rs: what all of them keep, and what a
-- chain that answers went through.
use mabel.Base.{ℕ, Option, none, some, ◌≡◌, refl}
use mabel.Base.Bytes.{Bytes}
use mabel.Crypto.{Crypto}
use mabel.Node.Ledger.{
  Head, Answer, Files, Step, ◌>>=◌, contiguous_last, sequences, read_event, event_id_of,
  cached_head, write_head,
}
use mabel.Node.Ledger.Append.{rebuild_from, rebuild_at, rebuild_head, cached_or, head}

module _ {A B : Type 0} where
  pub bind-all :
      (P : Files → Type 0) (s : Step A) (f : A × Files → Step B)
      → P (s.1)
      → ((a : A) (files : Files) → s ≡ (Answer.answer a, files) → P ((f (a, files)).1))
      → P ((s >>= f).1)
  unfolding ◌>>=◌
  bind-all P (Answer.refused error, files) f here next = here
  bind-all P (Answer.endless, files) f here next = here
  bind-all P (Answer.answer a, files) f here next = next a files refl

  pub bind-answers :
      (s : Step A) (f : A × Files → Step B) (b : B) (u : Files)
      → s >>= f ≡ (Answer.answer b, u)
      → (a : A) × (files : Files) × (s ≡ (Answer.answer a, files))
        × (f (a, files) ≡ (Answer.answer b, u))
  unfolding ◌>>=◌
  bind-answers (Answer.refused error, files) f b u e = cc
  bind-answers (Answer.endless, files) f b u e = cc
  bind-answers (Answer.answer a, files) f b u e = (a, files, refl, e)

  pub bind-runs :
      (s : Step A) (f : A × Files → Step B) (a : A) (files : Files)
      → s ≡ (Answer.answer a, files)
      → s >>= f ≡ f (a, files)
  unfolding ◌>>=◌
  bind-runs (Answer.refused error, t) f a files e = cc
  bind-runs (Answer.endless, t) f a files e = cc
  bind-runs (Answer.answer a', t) f a files e = cc

module _ (c : Crypto) (decode : Bytes → Option Bytes) where
  rebuild_from-events :
      (now last : ℕ) (bytes : Bytes) (files : Files)
      → (rebuild_from c decode now last bytes files).1.events ≡ files.events
  unfolding rebuild_from write_head
  rebuild_from-events now last bytes files =
      bind-all (λ u. u.events ≡ files.events) (event_id_of c decode last bytes, files) _ refl
        (λ id u e. cc)

  rebuild_at-events :
      (now : ℕ) (o : Option ℕ) (files : Files)
      → (rebuild_at c decode now o files).1.events ≡ files.events
  unfolding rebuild_at
  rebuild_at-events now none files = refl
  rebuild_at-events now (some last) files =
      bind-all (λ u. u.events ≡ files.events) (read_event last files.events, files) _ refl
        (λ bytes u e. let same = rebuild_from-events now last bytes u in cc)

  cached_or-events :
      (now : ℕ) (h : Option Head) (files : Files)
      → (cached_or c decode now h files).1.events ≡ files.events
  unfolding cached_or rebuild_head
  cached_or-events now none files =
      rebuild_at-events now (contiguous_last (sequences files.events)) files
  cached_or-events now (some h) files = refl

  pub head-events : (now : ℕ) (files : Files) → (head c decode now files).1.events ≡ files.events
  unfolding head
  head-events now files =
      bind-all (λ u. u.events ≡ files.events) (cached_head files, files) _ refl
        (λ h u e. let same = cached_or-events now h u in cc)
