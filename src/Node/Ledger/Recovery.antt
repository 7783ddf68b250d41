-- ===== src/Node/Ledger/Recovery.antt =====
-- Reading and appending again after a process died in `append`,
-- crates/mabel-node/src/ledger.rs.
use mabel.Base.{
  ℕ, suc, ◌+◌, ◌<◌, ◌^◌, Option, none, some, List, ◌∷◌, ◌++◌, map, ◌≡◌, sym, ap, ◌∙◌, arith,
}
use mabel.Base.Bytes.{Bytes, length, take}
use mabel.Crypto.{Crypto}
use mabel.Node.Ledger.{
  Head, Answer, Files, JsonFile, NewEvent, StoredEvent, ◌>>=◌, write_head, cached_head, read_json,
}
use mabel.Node.Ledger.Append.{
  interrupted, head, cached_or, next_seq, check_batch, write_after, write_events, append, read_all,
}
use mabel.Node.Ledger.Steps.{bind-answers, bind-runs}
use mabel.Node.Ledger.Heads.{count}
use mabel.Node.Ledger.Writes.{IsBatch, write_all-keeps}
use mabel.Node.Ledger.Reads.{read_run, stored_as, read_run-grows, read_run-length}
use mabel.Node.Ledger.Journal.{write_after-answers}
use mabel.Node.Ledger.RoundTrip.{
  next_seq-count, read_all-written, read_all-answers, read_all-append,
}
use mabel.Node.Ledger.Crash.{IsBatch-check_batch, IsBatch-take, IsBatch-written}

module _ (c : Crypto) (decode : Bytes → Option Bytes) where
  head-cached :
      (now : ℕ) (h : Head) (files : Files)
      → files.head_file ≡ JsonFile.parsed h
      → head c decode now files ≡ (Answer.answer (some h), files)
  unfolding head cached_head read_json cached_or ◌>>=◌
  head-cached now h files e = cc

  read_all-cached :
      (now : ℕ) (h : Head) (files : Files) (out : List StoredEvent)
      → files.head_file ≡ JsonFile.parsed h
      → suc h.seq < 2 ^ 64
      → read_run (suc h.seq) 0 none 0 files.events ≡ Answer.answer out
      → read_all c decode now files ≡ (Answer.answer out, files)
  unfolding write_head
  read_all-cached now h files out e room run =
      let same : write_head h files ≡ files =
        ap (λ file. record files { head_file = file }) (sym e) in
      let read = read_all-written c decode now h files room in cc

  write_after-accepts :
      (h : Option Head) (now : ℕ) (event : NewEvent) (events : List NewEvent) (files : Files)
      → check_batch c decode (next_seq h) (event ∷ events) files.events ≡ Answer.answer tt
      → (x : Head) × (u : Files) × (write_after c decode h now event events files
          ≡ (Answer.answer x, u))
  unfolding write_after
  write_after-accepts h now event events files passed = (
    _,
    _,
    bind-runs (check_batch c decode (next_seq h) (event ∷ events) files.events, files) _ tt files
        (ap (λ a. (a, files)) passed),
  )

  append-accepts :
      (t1 t2 : ℕ) (h : Head) (event : NewEvent) (events : List NewEvent) (files : Files)
      → files.head_file ≡ JsonFile.parsed h
      → check_batch c decode (next_seq (some h)) (event ∷ events) files.events ≡ Answer.answer tt
      → (x : Option Head) × (u : Files) × (append c decode t1 t2 (event ∷ events) files
          ≡ (Answer.answer x, u))
  unfolding append write_events
  append-accepts t1 t2 h event events files cached passed =
      let headed = head-cached t1 h files cached in
      let (x, u, wrote) = write_after-accepts (some h) t2 event events files passed in
      let ran = bind-runs (head c decode t1 files) _ (some h) files headed ∙ wrote in
      (_, _, bind-runs (write_events c decode t1 t2 event events files) _ x u ran)

  -- The batch of an `append` that was accepted on a cached head.
  append-IsBatch :
      (t1 t2 : ℕ) (h : Head) (event : NewEvent) (events : List NewEvent) (files u : Files)
      (x : Option Head)
      → files.head_file ≡ JsonFile.parsed h
      → append c decode t1 t2 (event ∷ events) files ≡ (Answer.answer x, u)
      → IsBatch c decode (next_seq (some h)) (event ∷ events) files.events
  unfolding append write_events
  append-IsBatch t1 t2 h event events files u x cached e =
      let (x1, u1, s1, e1) =
        bind-answers (write_events c decode t1 t2 event events files) _ x u e in
      let (h1, f, s2, e2) = bind-answers (head c decode t1 files) _ x1 u1 s1 in
      let headed = head-cached t1 h files cached in
      let is_h : h1 ≡ some h = cc in
      let is_files : f ≡ files = cc in
      let wrote : write_after c decode (some h) t2 event events files ≡ (Answer.answer x1, u1) =
        cc in
      (write_after-answers c decode (some h) t2 event events files x1 u1 wrote).0

  -- A process that dies in an `append`, after any number `n` of its writes, loses nothing and can
  -- try again. Take a ledger with its head in the cache, whose events are `old`, and a batch that
  -- `append` would accept, ending below 2^64 events. After the death `read_all` gives `old`, the
  -- same batch is accepted again, and then `read_all` gives `old` followed by the batch.
  pub append-recovers :
      (n t0 t1 t2 t3 t4 t5 t6 : ℕ) (event : NewEvent) (events : List NewEvent) (files u0 u : Files)
      (old : List StoredEvent) (h : Head) (x : Option Head)
      → length old + length (event ∷ events) < 2 ^ 64
      → files.head_file ≡ JsonFile.parsed h
      → read_all c decode t0 files ≡ (Answer.answer old, u0)
      → append c decode t1 t2 (event ∷ events) files ≡ (Answer.answer x, u)
      → (read_all c decode t3 (interrupted n (event ∷ events) files)
          ≡ (Answer.answer old, interrupted n (event ∷ events) files))
        × ((x' : Option Head) × (u' : Files) × (append c decode t4 t5
                (event ∷ events)
                (interrupted n (event ∷ events) files)
              ≡ (Answer.answer x', u'))
            × (read_all c decode t6 u'
                ≡ (Answer.answer (old ++ map stored_as (event ∷ events)), u')))
  unfolding interrupted
  append-recovers n t0 t1 t2 t3 t4 t5 t6 event events files u0 u old h x room cached before e =
      let crashed = interrupted n (event ∷ events) files in
      let (h0, headed, run0) = read_all-answers c decode t0 files old u0 before in
      let headed' = head-cached t0 h files cached in
      let is_h : h0 ≡ some h = cc in
      let run : read_run (suc h.seq) 0 none 0 files.events ≡ Answer.answer old =
        ap (λ o. read_run (count o) 0 none 0 files.events) (sym is_h) ∙ run0 in
      let size = read_run-length (suc h.seq) 0 0 files.events old run in
      let batch = append-IsBatch t1 t2 h event events files u x cached e in
      let next = next_seq-count (some h) (omega (arith, size, room)) in
      let some_written =
        IsBatch-take c decode n (next_seq (some h)) (event ∷ events) files.events batch in
      let grown =
        read_run-grows (suc h.seq) 0 0 files.events crashed.events old
          (λ k b held.
            write_all-keeps c decode (next_seq (some h)) (take n (event ∷ events)) files.events
              files.events k b some_written held held)
          run in
      let again = IsBatch-check_batch c decode (next_seq (some h)) (event ∷ events) crashed.events (
        IsBatch-written c decode n (next_seq (some h)) (event ∷ events) files.events
          (omega (arith, size, room, next)) batch) in
      let read = read_all-cached t3 h crashed old cached (omega (arith, size, room)) grown in
      let (x', u', accepted) = append-accepts t4 t5 h event events crashed cached again in
      (
        read,
        (
          x',
          u',
          accepted,
          read_all-append c decode t3 t4 t5 t6 event events crashed crashed u' old x' room read
              accepted,
        ),
      )
