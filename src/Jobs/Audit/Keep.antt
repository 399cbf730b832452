-- ===== src/Jobs/Audit/Keep.antt =====
-- Each write of src/beachops/db/repositories/jobs.py keeps `IsAudited`.
use beachops.Base.{
  ℕ, ◌==◌, ◌≡◌, refl, sym, ◌∙◌, ap, ◌≢◌, ◌⊎◌, inl, inr, Bool, true, false, ◌&&◌, Option, none, some,
  List, [], ◌∷◌, ◌++◌, Text, find?, find?-append, find?-update_where, update_where, Bool-cases,
  Option-cases, arith, if◌then◌else◌,
}
use beachops.Security.{Job, JobStatus}
use beachops.Redaction.{Json}
use beachops.Database.{Db, JobEvent, update_returning}
use beachops.Jobs.Queue.{next_claim, claim_for_worker, with_claim}
use beachops.Jobs.{
  NewJob, owned, has_id, new_row, create, transition, transition_row, append_event, update_owned,
  with_status,
}
use beachops.Jobs.Create.{create-cases}
use beachops.Jobs.Queries.{get}
use beachops.Jobs.Transition.{transition-cases, Accepted, Accepted-ids, transition_row-Moves}
use beachops.Jobs.Audit.{is_about, apply_event, replay, IsAudited}
use beachops.Jobs.Audit.Replay.{replay-snoc, apply_event-other, apply_event-note, apply_event-move}

about-apart : (a i b k : ℕ) → ((i == k) && (a == b)) ≡ false → (b ≢ a) ⊎ (k ≢ i)
about-apart a i b k h = elim (Bool-cases (i == k)) [
  | inl e ↦ inl (ground arith)
  | inr e ↦ inr (ground arith)
]

module _ (start : ℕ → ℕ → JobStatus) (db : Db) (old : IsAudited start db) where
  -- Writes that leave the events alone and the status of every job.
  pub keep-IsAudited :
      (db' : Db)
      → db'.job_events ≡ db.job_events
      → ((a i : ℕ) → get db' a i ≡ none → get db a i ≡ none)
      → ((a i : ℕ) (j : Job)
          → get db' a i ≡ some j
          → j.worker_node_id ≡ none
          → (k : Job) × (get db a i ≡ some k) × (k.worker_node_id ≡ none) × (j.status ≡ k.status))
      → IsAudited start db'
  keep-IsAudited db' events gone there = record {
    present = λ a i j h free.
        let (k, old_row, was_free, same_status) = there a i j h free in
        ap (replay a i (start a i)) events
        ∙ old.present a i k old_row was_free
        ∙ ap some (sym same_status);
    absent = λ a i h. ap (replay a i (start a i)) events ∙ old.absent a i (gone a i h);
  }

  -- One event more, which is about one job: the others replay as before.
  snoc-IsAudited :
      (db' : Db) (e : JobEvent)
      → db'.job_events ≡ db.job_events ++ e ∷ []
      → ((a i : ℕ) → is_about a i e ≡ false → get db' a i ≡ get db a i)
      → ((a i : ℕ)
          → is_about a i e ≡ true
          → (j k : Job) × (get db a i ≡ some k)
            × (get db' a i ≡ some j)
            × (j.worker_node_id ≡ k.worker_node_id)
            × (apply_event a i k.status e ≡ some j.status))
      → IsAudited start db'
  snoc-IsAudited db' e events other about = record {
    present = λ a i j h free. elim (Bool-cases (is_about a i e)) [
      | inl t ↦
          let (j', k, before, after, worker, moved) = about a i t in
          let was_free : k.worker_node_id ≡ none = ground arith in
          ap (replay a i (start a i)) events
          ∙ replay-snoc a i (start a i) db.job_events e (old.present a i k before was_free)
          ∙ (moved ∙ ground arith)
      | inr f ↦
          ap (replay a i (start a i)) events
          ∙ replay-snoc a i (start a i) db.job_events e
              (old.present a i j (sym (other a i f) ∙ h) free)
          ∙ apply_event-other a i j.status e f
    ];
    absent = λ a i h. elim (Bool-cases (is_about a i e)) [
      | inl t ↦ let (j', k, before, after, worker, moved) = about a i t in absurd (ground arith)
      | inr f ↦
          ap (replay a i (start a i)) events
          ∙ replay-snoc a i (start a i) db.job_events e (old.absent a i (sym (other a i f) ∙ h))
          ∙ apply_event-other a i (start a i) e f
    ];
  }

  pub transition-IsAudited :
      (redact : Text → Text) (now a i : ℕ) (from : List JobStatus) (to : JobStatus)
      (event_type : Text) (details : Option Json)
      → IsAudited start (transition redact db now a i from to event_type details).1
  transition-IsAudited redact now a i [] to event_type details = unfold transition in old
  transition-IsAudited redact now a i (s ∷ from) to event_type details =
      elim (transition-cases redact db now a i s from to event_type details) [
        | inl (why, same_db) ↦ rw same_db old
        | inr (j, accepted, moved) ↦ rw moved (moved-IsAudited j accepted)
      ]
    where
      moved-IsAudited :
          (j : Job)
          → Accepted db a i s from j
          → IsAudited start (transition_row redact db now j to event_type details).1
      moved-IsAudited j accepted =
          let (returned, self, frame, (e, events, names)) =
            transition_row-Moves redact db now a i s from to event_type details j accepted in
          let (ja, ji) = Accepted-ids db a i s from j accepted in
          snoc-IsAudited _ e events (λ b k f. frame b k (about-apart a i b k (ground arith)))
            (λ b k t. (
              with_status to now j,
              j,
              ground arith,
              ground arith,
              refl,
              apply_event-move b k j.status to e t names.2 names.3,
            ))

  pub append_event-IsAudited :
      (redact : Text → Text) (now a i : ℕ) (event_type : Text) (details : Option Json)
      → IsAudited start (append_event redact db now a i event_type details).1
  unfolding append_event get
  append_event-IsAudited redact now a i event_type details =
      elim (Option-cases (find? (owned a i) db.jobs)) [
        | inl missing ↦ rw (missing, append_event) old
        | inr (j, found) ↦
            rw (found, append_event) (snoc_note-IsAudited _ _ refl (λ b k. refl) refl)
      ]
    where
      -- An event without statuses, where every job stays as it is.
      snoc_note-IsAudited :
          (db' : Db) (e : JobEvent)
          → db'.job_events ≡ db.job_events ++ e ∷ []
          → ((b k : ℕ) → get db' b k ≡ get db b k)
          → e.from_status ≡ none
          → IsAudited start db'
      snoc_note-IsAudited db' e events same_rows no_status = record {
        present = λ b k j h free.
            ap (replay b k (start b k)) events
            ∙ replay-snoc b k (start b k) db.job_events e
                (old.present b k j (sym (same_rows b k) ∙ h) free)
            ∙ apply_event-note b k j.status e no_status;
        absent = λ b k h.
            ap (replay b k (start b k)) events
            ∙ replay-snoc b k (start b k) db.job_events e (old.absent b k (sym (same_rows b k) ∙ h))
            ∙ apply_event-note b k (start b k) e no_status;
      }

  -- A scoped update that keeps the identifiers and the status.
  pub update_owned-IsAudited :
      (a i : ℕ) (extra : Job → Bool) (f : Job → Job)
      → ((j : Job) → (f j).id ≡ j.id)
      → ((j : Job) → (f j).actor_id ≡ j.actor_id)
      → ((j : Job) → (f j).status ≡ j.status)
      → ((j : Job) → (f j).worker_node_id ≡ j.worker_node_id)
      → IsAudited start (update_owned db a i extra f).1
  unfolding update_owned get
  update_owned-IsAudited a i extra f id actor status worker =
      keep-IsAudited _ refl
        (λ b k h. elim (Option-cases (find? (owned b k) db.jobs)) [
          | inl missing ↦ missing
          | inr (j, found) ↦ absurd (ground (arith, law b k))
        ])
        (λ b k j h free. elim (Option-cases (find? (owned b k) db.jobs)) [
          | inl missing ↦ absurd (ground (arith, law b k))
          | inr (x, found) ↦
              (x, found, ground (arith, law b k, worker x), ground (arith, law b k, status x))
        ])
    where
      law :
          (b k : ℕ)
          → find? (owned b k) (update_where (λ j. owned a i j && extra j) f db.jobs)
            ≡ (elim (find? (owned b k) db.jobs) [
              | none ↦ none
              | some x ↦ some (if owned a i x && extra x then f x else x)
            ])
      law b k =
          find?-update_where (λ j. owned a i j && extra j) (owned b k) f db.jobs
            (λ x. ground (arith, id x, actor x))

  pub create-IsAudited :
      (redact : Text → Text) (now : ℕ) (n : NewJob)
      → n.status ≡ start n.actor_id n.id
      → IsAudited start (create redact db now n).1
  unfolding create get
  create-IsAudited redact now n starts = elim (create-cases redact db now n) [
    | inl (e, failed) ↦ rw failed old
    | inr (fresh, new_key, known, made) ↦ rw made (record {
      present = λ b k j h free. elim (Option-cases (find? (owned b k) db.jobs)) [
        | inl missing ↦
            old.absent b k missing
            ∙ ground (arith, find?-append (owned b k) db.jobs (new_row redact now n ∷ []))
        | inr (x, found) ↦
            old.present b k x found
              (ground (arith, find?-append (owned b k) db.jobs (new_row redact now n ∷ [])))
            ∙ ground (arith, find?-append (owned b k) db.jobs (new_row redact now n ∷ []))
      ];
      absent = λ b k h. elim (Option-cases (find? (owned b k) db.jobs)) [
        | inl missing ↦ old.absent b k missing
        | inr (x, found) ↦
            absurd (ground (arith, find?-append (owned b k) db.jobs (new_row redact now n ∷ [])))
      ];
    })
  ]

  -- A claim gives its job a worker, and leaves the other jobs.
  pub claim_for_worker-IsAudited :
      (locked : ℕ → Bool) (now worker : ℕ) (runtime : Text)
      → IsAudited start (claim_for_worker locked db now worker runtime).1
  unfolding claim_for_worker update_returning get
  claim_for_worker-IsAudited locked now worker runtime =
      elim (Option-cases (next_claim locked db worker runtime)) [
        | inl nothing ↦ rw (nothing, claim_for_worker) old
        | inr (row, first) ↦
            rw (first, claim_for_worker)
              (keep-IsAudited _ refl
                (λ b k h. elim (Option-cases (find? (owned b k) db.jobs)) [
                  | inl missing ↦ missing
                  | inr (x, found) ↦ absurd (ground (arith, law row b k))
                ])
                (λ b k j h free. elim (Option-cases (find? (owned b k) db.jobs)) [
                  | inl missing ↦ absurd (ground (arith, law row b k))
                  | inr (x, found) ↦ elim (Bool-cases (has_id row.id x)) [
                    | inl hit ↦ absurd (ground (arith, law row b k))
                    | inr miss ↦
                        (x, found, ground (arith, law row b k), ground (arith, law row b k))
                  ]
                ]))
      ]
    where
      law :
          (row : Job) (b k : ℕ)
          → find? (owned b k) (update_where (has_id row.id) (with_claim worker now) db.jobs)
            ≡ (elim (find? (owned b k) db.jobs) [
              | none ↦ none
              | some x ↦ some (if has_id row.id x then with_claim worker now x else x)
            ])
      law row b k =
          find?-update_where (has_id row.id) (owned b k) (with_claim worker now) db.jobs
            (λ x. ground arith)
