-- ===== src/Ingest/Export/Chain.antt =====
-- apps/tmdb-ingest/src/jobs.rs: the jobs of an export, each at the offset that the one before left,
-- read every id of the file once and in order.
use mathlib.Core.Path.{subst}
use mathlib.Core.List.{append-nil}
use tmdb_mirror.Prelude.{
  ℕ, zero, suc, ◌+◌, ◌≤◌, ◌<◌, ◌≡◌, refl, sym, ap, ◌∙◌, ◌≢◌, Bool, true, false, List, [], ◌∷◌, ◌++◌,
  Option, none, some, length, length-append, length-drop, drop, Result, ok, err, ◌>>=◌, Text, ltb,
  if◌then◌else◌, arith,
}
use tmdb_mirror.Jobs.Worker.{JobExecutionError}
use tmdb_mirror.Jobs.Model.{is_empty}
use tmdb_mirror.Upstream.Export.{split_line}
use tmdb_mirror.Ingest.Export.{
  ExportFile, ExportIdBatch, Reading, id_of_line, prepend, read_ids, batch_of, read_export_id_batch,
}
use tmdb_mirror.Ingest.Export.Ids.{
  all_ids, all_ids-nil, completed, read_ids-completed, split-append, split-nonempty, drop-add,
  drop-append,
}

module _ (decode : List ℕ → Option Text) where
  -- The jobs of an export from an offset: the ids that they read, one batch after the other, up to
  -- the first error; `none` if the fuel runs out.
  abbrev appended :
      List ℕ
      → Option (Result JobExecutionError (List ℕ))
      → Option (Result JobExecutionError (List ℕ))
  appended ids none = none
  appended ids (some (err e)) = some (err e)
  appended ids (some (ok more)) = some (ok (ids ++ more))

  abbrev after_batch :
      Result JobExecutionError ExportIdBatch
      → (ℕ → Option (Result JobExecutionError (List ℕ)))
      → Option (Result JobExecutionError (List ℕ))
  after_batch (err e) next = some (err e)
  after_batch (ok batch) next =
      if batch.finished then some (ok batch.ids) else appended batch.ids (next batch.next_offset)

  unfoldable pub export_chain : ExportFile → ℕ → ℕ → Option (Result JobExecutionError (List ℕ))
  export_chain file zero offset = none
  export_chain file (suc fuel) offset =
      after_batch (read_export_id_batch decode file offset) (export_chain file fuel)

  module _ (readable : ℕ → Bool) (reads : (offset : ℕ) → readable offset ≡ true) where
    -- Where a reading stands: at its offset in the file, and no further back than before.
    record Stands (bytes : List ℕ) (n : ℕ) (rest : List ℕ) (r : Reading) : Type 0 where
      pub at_rest : drop r.offset bytes ≡ r.rest
      pub inside : r.offset ≤ length bytes
      pub shorter : length r.rest ≤ length rest
      pub moved : 0 < n → rest ≢ [] → length r.rest < length rest

    -- The post-condition of a reading, if it returns.
    abbrev Standing : List ℕ → ℕ → List ℕ → Result JobExecutionError Reading → Type 0
    Standing bytes n rest (err e) = Unit
    Standing bytes n rest (ok r) = Stands bytes n rest r

    prepended :
        (bytes : List ℕ) (n m : ℕ) (rest left : List ℕ) (i : Result JobExecutionError ℕ)
        (more : Result JobExecutionError Reading)
        → length left < length rest
        → Standing bytes m left more
        → Standing bytes n rest (i >>= λ id. more >>= λ r. ok (prepend decode id r))
    prepended bytes n m rest left (err e) more h k = tt
    prepended bytes n m rest left (ok id) (err e) h k = tt
    prepended bytes n m rest left (ok id) (ok r) h k = record {
      at_rest = k.at_rest;
      inside = k.inside;
      shorter = omega (arith, k.shorter);
      moved = λ p q. omega (arith, k.shorter);
    }

    left_shorter : (b : ℕ) (rest : List ℕ) → length (split_line (b ∷ rest)).1 < length (b ∷ rest)
    left_shorter b rest = omega (
      arith,
      ap length (split-append (b ∷ rest)),
      length-append (split_line (b ∷ rest)).0 (split_line (b ∷ rest)).1,
      split-nonempty b rest,
    )

    left_at :
        (bytes : List ℕ) (b : ℕ) (rest : List ℕ) (offset : ℕ)
        → drop offset bytes ≡ b ∷ rest
        → drop (offset + length (split_line (b ∷ rest)).0) bytes ≡ (split_line (b ∷ rest)).1
    left_at bytes b rest offset h =
        drop-add offset (length (split_line (b ∷ rest)).0) bytes
        ∙ ap (drop (length (split_line (b ∷ rest)).0)) (h ∙ sym (split-append (b ∷ rest)))
        ∙ drop-append (split_line (b ∷ rest)).0 (split_line (b ∷ rest)).1

    left_inside :
        (bytes : List ℕ) (b : ℕ) (rest : List ℕ) (offset : ℕ)
        → drop offset bytes ≡ b ∷ rest
        → offset + length (split_line (b ∷ rest)).0 ≤ length bytes
    left_inside bytes b rest offset h = omega (
      arith,
      ap length h,
      length-drop offset bytes,
      ap length (split-append (b ∷ rest)),
      length-append (split_line (b ∷ rest)).0 (split_line (b ∷ rest)).1,
    )

    read_ids-Standing :
        (bytes : List ℕ) (n : ℕ) (rest : List ℕ) (offset : ℕ)
        → drop offset bytes ≡ rest
        → offset ≤ length bytes
        → Standing bytes n rest (read_ids decode readable n rest offset)
    unfolding read_ids
    read_ids-Standing bytes zero rest offset h k = record {
      at_rest = h;
      inside = k;
      shorter = omega arith;
      moved = λ p q. absurd (omega arith);
    }
    read_ids-Standing bytes (suc n) [] offset h k =
        rw (reads offset) (record {
          at_rest = h;
          inside = k;
          shorter = omega arith;
          moved = λ p q. absurd (q refl);
        })
    read_ids-Standing bytes (suc n) (b ∷ rest) offset h k =
        let line = (split_line (b ∷ rest)).0 in
        let left = (split_line (b ∷ rest)).1 in
        rw (reads offset) (
          prepended bytes (suc n) n (b ∷ rest) left (id_of_line decode line)
            (read_ids decode readable n left (offset + length line)) (left_shorter b rest)
            (read_ids-Standing bytes n left (offset + length line) (left_at bytes b rest offset h)
              (left_inside bytes b rest offset h)))

    appended_completed :
        (ids : List ℕ) (m : Result JobExecutionError (List ℕ))
        → appended ids (some m) ≡ some (m >>= λ more. ok (ids ++ more))
    appended_completed ids (err e) = refl
    appended_completed ids (ok more) = refl

    empty_of_length : (xs : List ℕ) → length xs ≤ 0 → xs ≡ []
    empty_of_length [] h = refl
    empty_of_length (x ∷ xs) h = absurd (omega arith)

    shorter_rest :
        (bytes rest : List ℕ) (n : ℕ) (r : Reading)
        → Stands bytes (suc n) rest r
        → r.rest ≢ []
        → length r.rest < length rest
    shorter_rest bytes [] n r s more = absurd (more (empty_of_length r.rest s.shorter))
    shorter_rest bytes (b ∷ rest) n r s more = s.moved (omega arith) (λ e. cc)

    -- What follows a reading, when the chain reads the rest.
    chain_of_reading :
        (r : Reading) (next : ℕ → Option (Result JobExecutionError (List ℕ)))
        → (r.rest ≢ [] → next r.offset ≡ some (all_ids decode r.rest))
        → after_batch (batch_of decode readable r) next ≡ some (completed decode r)
    chain_of_reading r next h =
        rw (reads r.offset) (finished_or_next r.ids r.rest (next r.offset) h)
      where
        finished_or_next :
            (ids rest : List ℕ) (next : Option (Result JobExecutionError (List ℕ)))
            → (rest ≢ [] → next ≡ some (all_ids decode rest))
            → (if is_empty rest then some (ok ids) else appended ids next)
              ≡ some (all_ids decode rest >>= λ more. ok (ids ++ more))
        finished_or_next ids [] next h =
            rw (all_ids-nil decode) (ap (λ all. some (ok all)) (sym (append-nil ids)))
        finished_or_next ids (b ∷ rest) next h =
            rw (h (λ e. cc)) (appended_completed ids (all_ids decode (b ∷ rest)))

    chain_of_readings :
        (m : Result JobExecutionError Reading)
        (next : ℕ → Option (Result JobExecutionError (List ℕ)))
        → ((r : Reading) → m ≡ ok r → r.rest ≢ [] → next r.offset ≡ some (all_ids decode r.rest))
        → after_batch (m >>= batch_of decode readable) next ≡ some (m >>= completed decode)
    chain_of_readings (err e) next h = refl
    chain_of_readings (ok r) next h = chain_of_reading r next (h r refl)

  module _ (file : ExportFile) (opens : file.opens ≡ true)
      (reads : (offset : ℕ) → file.readable offset ≡ true) where
    not_past : (offset n : ℕ) → offset ≤ n → ltb n offset ≡ false
    not_past offset n h = ground arith

    -- The chain goes on behind a reading that left something.
    next_from :
        (fuel offset : ℕ)
        → offset ≤ length file.bytes
        → length (drop offset file.bytes) < suc fuel
        → (r : Reading) → read_ids decode file.readable 500 (drop offset file.bytes) offset ≡ ok r
        → r.rest ≢ []
        → (r.offset ≤ length file.bytes
            → length (drop r.offset file.bytes) < fuel
            → export_chain file fuel r.offset ≡ some (all_ids decode (drop r.offset file.bytes)))
        → export_chain file fuel r.offset ≡ some (all_ids decode r.rest)
    next_from fuel offset h k r e more chain =
        let stands =
          subst (Standing file.readable reads file.bytes 500 (drop offset file.bytes)) e (
            read_ids-Standing file.readable reads file.bytes 500 (drop offset file.bytes) offset
              refl h) in
        let smaller =
          shorter_rest file.readable reads file.bytes (drop offset file.bytes) 499 r stands more in
        chain stands.inside (omega (arith, ap length stands.at_rest, smaller))
        ∙ ap (λ rest. some (all_ids decode rest)) stands.at_rest

    chain_from :
        (fuel offset : ℕ)
        → offset ≤ length file.bytes
        → length (drop offset file.bytes) < fuel
        → export_chain file fuel offset ≡ some (all_ids decode (drop offset file.bytes))
    unfolding export_chain read_export_id_batch
    chain_from zero offset h k = absurd (omega arith)
    chain_from (suc fuel) offset h k = rw opens (
        rw (not_past offset (length file.bytes) h) (
          chain_of_readings file.readable reads
            (read_ids decode file.readable 500 (drop offset file.bytes) offset)
            (export_chain file fuel)
            (λ r e more. next_from fuel offset h k r e more (chain_from fuel r.offset))
          ∙ ap some (
              sym (
                read_ids-completed decode file.readable reads 500 (drop offset file.bytes)
                  offset))))

    -- If the file opens and all reads succeed, the jobs of an export from offset 0, each at the offset
    -- that the one before returned, end with fuel for more jobs than the file has bytes, and read the
    -- ids of all its lines once and in order, or end with the error of the first bad line.
    pub export_chain-all :
        (fuel : ℕ)
        → length file.bytes < fuel
        → export_chain file fuel 0 ≡ some (all_ids decode file.bytes)
    export_chain-all fuel h = chain_from fuel 0 (omega arith) h
