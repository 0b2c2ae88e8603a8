-- ===== src/Ingest/Scan/Next.antt =====
-- apps/tmdb-ingest/src/jobs.rs: which states follow a state of a catalog scan.
use tmdb_mirror.Prelude.{
  ℕ, ◌+◌, ◌^◌, ◌<◌, ◌≡◌, refl, ◌≢◌, ◌⊎◌, inl, inr, true, false, ◌&&◌, none, length, Bool-cases,
  arith,
}
use tmdb_mirror.Domain.{MediaType}
use tmdb_mirror.Ingest.Payload.{
  AdminScanMode, prune_cleanup, AdminScanPhase, start, enrichment, seasons, completion,
  AdminScanPayload,
}
use tmdb_mirror.Ingest.Payload.Scan.{IsScan, IsPhase, IsBatchMode}
use tmdb_mirror.Ingest.Scan.{CatalogPhaseBatch, following, is_enrichment, is_tv}

abbrev pub rank : AdminScanPhase → ℕ
rank start = 0
rank enrichment = 1
rank seasons = 2
rank completion = 3

-- What has moved on: the poll count, the phase, or the cursor.
abbrev pub Progresses : AdminScanPayload → AdminScanPayload → Type 0
Progresses r next =
    (next ≡ record r { poll = r.poll + 1 })
    ⊎ (rank r.phase < rank next.phase)
    ⊎ (next.phase ≡ r.phase) × (r.cursor < next.cursor)

-- A state that `parse_job` accepts, of the same scan, and further on.
pub record IsNext (r : AdminScanPayload) (next : AdminScanPayload) : Type 0 where
  pub accepted : IsScan next
  pub poll : next.poll < 2 ^ 32
  pub mode : next.mode ≡ r.mode
  pub media_types : next.media_types ≡ r.media_types
  pub progress : Progresses r next

batches_mode : (m : AdminScanMode) → IsBatchMode m → m ≢ prune_cleanup
batches_mode m h e = ground arith

poll-IsPhase :
    (f : AdminScanPhase) (m : AdminScanMode) (types cursor poll next : ℕ)
    → f ≢ start
    → IsPhase f m types cursor poll
    → IsPhase f m types cursor next
poll-IsPhase start m types cursor poll next h k = absurd (h refl)
poll-IsPhase enrichment m types cursor poll next h k = k
poll-IsPhase seasons m types cursor poll next h k = k
poll-IsPhase completion m types cursor poll next h k = k

pub polled-IsNext :
    (r : AdminScanPayload)
    → IsScan r
    → r.phase ≢ start
    → r.poll + 1 < 2 ^ 32
    → IsNext r (record r { poll = r.poll + 1 })
polled-IsNext r h k bound = record {
  accepted = record {
    types = h.types;
    cursor = h.cursor;
    phase =
        poll-IsPhase r.phase r.mode (length r.media_types) r.cursor r.poll (r.poll + 1) k h.phase;
    window = h.window;
    daily = h.daily;
  };
  poll = bound;
  mode = refl;
  media_types = refl;
  progress = inl refl;
}

-- The facts about a phase with batches.
abbrev pub IsBatch : AdminScanPhase → Type 0
IsBatch f = (f ≡ enrichment) ⊎ (f ≡ seasons)

batch_phase_of :
    (f : AdminScanPhase) (m : AdminScanMode) (types cursor poll : ℕ)
    → IsBatch f
    → IsPhase f m types cursor poll
    → IsBatchMode m × (types ≡ 1)
batch_phase_of start m types cursor poll b h = ground arith
batch_phase_of enrichment m types cursor poll b h = h
batch_phase_of seasons m types cursor poll b h = h
batch_phase_of completion m types cursor poll b h = ground arith

IsPhase-of_batch :
    (f : AdminScanPhase) (m : AdminScanMode) (types cursor : ℕ)
    → IsBatch f
    → IsBatchMode m × (types ≡ 1)
    → IsPhase f m types cursor 0
IsPhase-of_batch start m types cursor b h = ground arith
IsPhase-of_batch enrichment m types cursor b h = h
IsPhase-of_batch seasons m types cursor b h = h
IsPhase-of_batch completion m types cursor b h = ground arith

rank_of_batch : (f : AdminScanPhase) → IsBatch f → rank f < 3
rank_of_batch f (inl e) = rw e (omega arith)
rank_of_batch f (inr e) = rw e (omega arith)

enrichment_rank : (f : AdminScanPhase) → is_enrichment f ≡ true → rank f < 2
enrichment_rank enrichment h = omega arith
enrichment_rank start h = cc
enrichment_rank seasons h = cc
enrichment_rank completion h = cc

continued-IsNext :
    (r : AdminScanPayload) (n : ℕ)
    → IsScan r
    → IsBatch r.phase
    → r.cursor < n
    → n < 2 ^ 63
    → IsNext r (record r { cursor = n; poll = 0 })
continued-IsNext r n h b lower upper =
    let facts = batch_phase_of r.phase r.mode (length r.media_types) r.cursor r.poll b h.phase in
    record {
      accepted = record {
        types = h.types;
        cursor = upper;
        phase = IsPhase-of_batch r.phase r.mode (length r.media_types) n b facts;
        window = h.window;
        daily = h.daily;
      };
      poll = omega arith;
      mode = refl;
      media_types = refl;
      progress = inr (inr (refl, lower));
    }

seasons-IsNext :
    (r : AdminScanPayload)
    → IsScan r
    → IsBatch r.phase
    → is_enrichment r.phase ≡ true
    → IsNext r (record {
      mode = r.mode;
      media_types = r.media_types;
      phase = seasons;
      cursor = 0;
      poll = 0;
      window_start = none;
      window_end = none;
    })
seasons-IsNext r h b e = record {
  accepted = record {
    types = h.types;
    cursor = omega arith;
    phase = batch_phase_of r.phase r.mode (length r.media_types) r.cursor r.poll b h.phase;
    window = tt;
    daily = inr (refl, refl);
  };
  poll = omega arith;
  mode = refl;
  media_types = refl;
  progress = inr (inl (enrichment_rank r.phase e));
}

completed-IsNext :
    (r : AdminScanPayload)
    → IsScan r
    → IsBatch r.phase
    → IsNext r (record r { phase = completion; cursor = 0; poll = 0 })
completed-IsNext r h b =
    let facts = batch_phase_of r.phase r.mode (length r.media_types) r.cursor r.poll b h.phase in
    record {
      accepted = record {
        types = h.types;
        cursor = omega arith;
        phase = batches_mode r.mode facts.0;
        window = h.window;
        daily = h.daily;
      };
      poll = omega arith;
      mode = refl;
      media_types = refl;
      progress = inr (inl (rank_of_batch r.phase b));
    }

-- The state that follows a batch, when a batch that is not the last one moved the cursor.
pub following-IsNext :
    (r : AdminScanPayload) (t : MediaType) (batch : CatalogPhaseBatch)
    → IsScan r
    → IsBatch r.phase
    → (batch.done ≡ false → (r.cursor < batch.next_cursor) × (batch.next_cursor < 2 ^ 63))
    → IsNext r (following r t batch)
following-IsNext r t batch h b moved = elim (Bool-cases batch.done) [
  | inr more ↦ rw more (continued-IsNext r batch.next_cursor h b (moved more).0 (moved more).1)
  | inl done ↦ elim (Bool-cases (is_enrichment r.phase && is_tv t)) [
    | inl e ↦ rw (done, e) (seasons-IsNext r h b (ground arith))
    | inr e ↦ rw (done, e) (completed-IsNext r h b)
  ]
]
