-- ===== src/Jobs/Pipeline/Awaits.antt =====
-- What the pipeline's reading of its flags between two jobs leaves, whatever other threads do meanwhile.
use mathlib.Core.Path.{subst}
use mboot_core.Prelude.{
  ◌≡◌, refl, ◌∙◌, ◌⊎◌, inl, inr, Bool, true, false, Option, some, List, [], ◌∷◌, Bool-cases,
}
use mboot_core.Jobs.Types.{Job}
use mboot_core.Jobs.Pipeline.{
  JobPipeline, Signal, cancel_all, quiet, cancel_request, pause_request, resume_request, receive,
  cancel, pause, resume,
}
use mboot_core.Jobs.Pipeline.Run.{await}

module _ {W : Type 0} where
  -- A world as it was, or as the cancellation of the jobs makes it.
  abbrev pub LeftBy : List (Job W) → W → W → Type 0
  LeftBy js v w = (v ≡ w) ⊎ (v ≡ cancel_all js w)

  -- A step that leaves the counters as they are.
  abbrev pub SameCounts : JobPipeline W → JobPipeline W → Type 0
  SameCounts p q = (q.completed_count ≡ p.completed_count) × (q.failed_count ≡ p.failed_count)

  -- And the jobs and the world.
  abbrev pub Kept : JobPipeline W → JobPipeline W → Type 0
  Kept p q = SameCounts p q × (q.jobs ≡ p.jobs) × (q.world ≡ p.world)

  receive-SameCounts :
      (s : Signal) (p : JobPipeline W) → SameCounts p (receive s p) × ((receive s p).jobs ≡ p.jobs)
  unfolding receive cancel pause resume
  receive-SameCounts quiet p = ((refl, refl), refl)
  receive-SameCounts cancel_request p = ((refl, refl), refl)
  receive-SameCounts pause_request p = ((refl, refl), refl)
  receive-SameCounts resume_request p = ((refl, refl), refl)

  -- Only a cancellation changes the world.
  receive_world :
      (s : Signal) (p : JobPipeline W)
      → ((receive s p).world ≡ p.world)
        ⊎ (((receive s p).world ≡ cancel_all p.jobs p.world) × ((receive s p).cancelled ≡ true))
  unfolding receive cancel pause resume
  receive_world quiet p = inl refl
  receive_world cancel_request p = inr (refl, refl)
  receive_world pause_request p = inl refl
  receive_world resume_request p = inl refl

  -- A round that does not go on has found the flag set, one that goes on finds the world as it was.
  pub record Awaits (p q : JobPipeline W) (o : Option Bool) : Type 0 where
    pub counts : SameCounts p q
    pub jobs_kept : q.jobs ≡ p.jobs
    pub world_left : LeftBy p.jobs q.world p.world
    pub world_kept : o ≡ some true → q.world ≡ p.world
    pub flag_set : o ≡ some false → q.cancelled ≡ true

  -- One signal, and then what follows it.
  Awaits-after :
      (p q r : JobPipeline W) (o : Option Bool)
      → SameCounts p q
      → q.jobs ≡ p.jobs
      → q.world ≡ p.world
      → Awaits q r o
      → Awaits p r o
  Awaits-after p q r o same jobs world a = record {
    counts = (a.counts.0 ∙ same.0, a.counts.1 ∙ same.1);
    jobs_kept = a.jobs_kept ∙ jobs;
    world_left =
        subst (λ w. LeftBy p.jobs r.world w) world
          (subst (λ js. LeftBy js r.world q.world) jobs a.world_left);
    world_kept = λ e. a.world_kept e ∙ world;
    flag_set = a.flag_set;
  }

  pub await-Awaits : (ss : List Signal) (p : JobPipeline W) → Awaits p (await ss p).0 (await ss p).1
  unfolding await
  await-Awaits [] p = elim (Bool-cases p.cancelled) [
    | inl c ↦
        rw (c, await)
          (record {
            counts = (refl, refl);
            jobs_kept = refl;
            world_left = inl refl;
            world_kept = λ e. refl;
            flag_set = λ _. c;
          })
    | inr c ↦ elim (Bool-cases p.paused) [
      | inl h ↦
          rw (c, await, h)
            (record {
              counts = (refl, refl);
              jobs_kept = refl;
              world_left = inl refl;
              world_kept = λ e. refl;
              flag_set = λ e. absurd (cc);
            })
      | inr h ↦
          rw (c, await, h)
            (record {
              counts = (refl, refl);
              jobs_kept = refl;
              world_left = inl refl;
              world_kept = λ e. refl;
              flag_set = λ e. absurd (cc);
            })
    ]
  ]
  await-Awaits (s ∷ ss) p =
      let p' = record p { signals = ss } in
      let q = receive s p' in
      let (same, jobs) = receive-SameCounts s p' in
      elim (Bool-cases q.cancelled) [
        | inl c ↦
            rw (c, await)
              (record {
                counts = same;
                jobs_kept = jobs;
                world_left = elim (receive_world s p') as (λ _. LeftBy p.jobs q.world p.world) [
                  | inl e ↦ inl e
                  | inr (e, _) ↦ inr e
                ];
                world_kept = λ e. absurd (cc);
                flag_set = λ _. c;
              })
        | inr c ↦
            let world : q.world ≡ p.world = elim (receive_world s p') [
              | inl e ↦ e
              | inr (e, set) ↦ absurd (cc)
            ] in
            elim (Bool-cases q.paused) [
              | inr h ↦
                  rw (c, await, h)
                    (record {
                      counts = same;
                      jobs_kept = jobs;
                      world_left = inl world;
                      world_kept = λ e. world;
                      flag_set = λ e. absurd (cc);
                    })
              | inl h ↦
                  rw (c, await, h)
                    (Awaits-after p q (await ss q).0 (await ss q).1 same jobs world
                      (await-Awaits ss q))
            ]
      ]
