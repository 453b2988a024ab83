-- ===== src/Ids/Threads.antt =====
-- `next_id` of id_gen.rs called by several threads: the atomic operations of one call, one at a
-- time, on the shared generator.
use zkbot.Prelude.{
  ℕ, ◌≡◌, refl, ltb, leb, nat_beq, Bool, true, false, Option, none, Bool-cases, inl, inr, some,
  List, [], ◌∷◌, if◌then◌else◌, subst, arith,
}
use zkbot.Ids.{
  SnowflakeIdGen, compose, next_sequence, max_sequence, ready, spinning, next_id_loop, next_id,
  Phase, Issued,
}

-- Where a thread stands in its call: before the clock is read, with the time, with the time and the
-- `last` it loaded, after it has won `compare_exchange`, in the wait, or with its id.
pub data Call : Type 0 where
  calling waiting : Call
  clocked claimed waited issued : ℕ → Call
  loaded : ℕ → ℕ → Call

-- The generator that the threads share, and the clock.
pub record Shared : Type 0 where
  pub generator : SnowflakeIdGen
  pub readings : List ℕ

abbrev pub Stepped : Type 0
Stepped = Option (Call × Shared)

-- Reads the clock; none when the readings have run out.
abbrev current_ms : (ℕ → Call) → Shared → Stepped
current_ms next s = elim s.readings [
  | [] ↦ none
  | now_ms ∷ readings ↦ some (next now_ms, record s { readings = readings })
]

-- The step after the load of `last`.
abbrev after_load : ℕ → ℕ → SnowflakeIdGen → Call × SnowflakeIdGen
after_load now_ms last g =
    if ltb last now_ms
    then (if nat_beq g.last_ms last
        then (claimed now_ms, record g { last_ms = now_ms })
        else (calling, g))
    else (
      (if leb (next_sequence g.sequence) max_sequence
          then issued (compose now_ms g.instance_id (next_sequence g.sequence))
          else waiting),
      record g { sequence = next_sequence g.sequence },
    )

-- One atomic operation of a thread.
unfoldable pub step : Call → Shared → Stepped
step calling s = current_ms clocked s
step (clocked now_ms) s = some (loaded now_ms s.generator.last_ms, s)
step (loaded now_ms last) s =
    let (call, g) = after_load now_ms last s.generator in some (call, record s { generator = g })
step (claimed now_ms) s = some (
  issued (compose now_ms s.generator.instance_id 0),
  record s { generator = record s.generator { sequence = 0 } },
)
step waiting s = current_ms waited s
step (waited now_ms) s = some ((if leb now_ms s.generator.last_ms then waiting else calling), s)
step (issued id) s = none

-- Steps of one thread with nothing of another between them.
pub data Alone : Call × Shared → Call × Shared → Type 0 where
  done : {c : Call × Shared} → Alone c c
  then_step :
      {call : Call} {s : Shared} {c d : Call × Shared}
      → step call s ≡ some c
      → Alone c d
      → Alone (call, s) d

abbrev call_of : Phase → Call
call_of ready = calling
call_of spinning = waiting

abbrev AloneTo : Call → Shared → Issued → Type 0
AloneTo call s none = Unit
AloneTo call s (some (id, h, rest)) =
    Alone (call, s) (issued id, record { generator = h; readings = rest })

first_step :
    (call : Call) (s : Shared) (d : Call) (t : Shared) (o : Issued)
    → step call s ≡ some (d, t)
    → AloneTo d t o
    → AloneTo call s o
first_step call s d t none e a = tt
first_step call s d t (some (id, h, rest)) e a = then_step e a

-- From `calling` to the load of `last`.
loads-AloneTo :
    (g : SnowflakeIdGen) (now_ms : ℕ) (readings : List ℕ) (o : Issued)
    → AloneTo (loaded now_ms g.last_ms) (record { generator = g; readings = readings }) o
    → AloneTo calling (record { generator = g; readings = now_ms ∷ readings }) o
unfolding step
loads-AloneTo g now_ms readings o a = first_step _ _ _ _ o refl (first_step _ _ _ _ o refl a)

-- The three ways on from the load of the generator's own `last_ms`.
pub step-wins :
    (g : SnowflakeIdGen) (now_ms : ℕ) (readings : List ℕ)
    → ltb g.last_ms now_ms ≡ true
    → step (loaded now_ms g.last_ms) (record { generator = g; readings = readings })
      ≡ some (
        claimed now_ms,
        record { generator = record g { last_ms = now_ms }; readings = readings },
      )
unfolding step
step-wins g now_ms readings e = ground (arith, e)

pub step-issues :
    (g : SnowflakeIdGen) (now_ms : ℕ) (readings : List ℕ)
    → ltb g.last_ms now_ms ≡ false
    → leb (next_sequence g.sequence) max_sequence ≡ true
    → step (loaded now_ms g.last_ms) (record { generator = g; readings = readings })
      ≡ some (
        issued (compose now_ms g.instance_id (next_sequence g.sequence)),
        record {
          generator = record g { sequence = next_sequence g.sequence };
          readings = readings;
        },
      )
unfolding step
step-issues g now_ms readings e f = rw (e, f) refl

step-waits :
    (g : SnowflakeIdGen) (now_ms : ℕ) (readings : List ℕ)
    → ltb g.last_ms now_ms ≡ false
    → leb (next_sequence g.sequence) max_sequence ≡ false
    → step (loaded now_ms g.last_ms) (record { generator = g; readings = readings })
      ≡ some (
        waiting,
        record {
          generator = record g { sequence = next_sequence g.sequence };
          readings = readings;
        },
      )
unfolding step
step-waits g now_ms readings e f = rw (e, f) refl

step-wakes :
    (g : SnowflakeIdGen) (now_ms : ℕ) (readings : List ℕ) (b : Bool)
    → leb now_ms g.last_ms ≡ b
    → step (waited now_ms) (record { generator = g; readings = readings })
      ≡ some
          (call_of (if b then spinning else ready), record { generator = g; readings = readings })
unfolding step
step-wakes g now_ms readings true e = rw e refl
step-wakes g now_ms readings false e = rw e refl

next_id_loop-AloneTo :
    (phase : Phase) (g : SnowflakeIdGen) (readings : List ℕ)
    → AloneTo
        (call_of phase)
        (record { generator = g; readings = readings })
        (next_id_loop phase g readings)
unfolding next_id_loop step
next_id_loop-AloneTo phase g [] = tt
next_id_loop-AloneTo spinning g (now_ms ∷ readings) =
    first_step waiting _ (waited now_ms) _ _ refl (
      first_step _ _ _ _ _ (step-wakes g now_ms readings _ refl)
        (next_id_loop-AloneTo (if leb now_ms g.last_ms then spinning else ready) g readings))
next_id_loop-AloneTo ready g (now_ms ∷ readings) =
    loads-AloneTo g now_ms readings _ (elim (Bool-cases (ltb g.last_ms now_ms)) [
      | inl e ↦ rw e (then_step (step-wins g now_ms readings e) (then_step refl done))
      | inr e ↦ elim (Bool-cases (leb (next_sequence g.sequence) max_sequence)) [
        | inl f ↦ rw (e, f) (then_step (step-issues g now_ms readings e f) done)
        | inr f ↦
            rw (e, f)
              (first_step _ _ waiting _ _ (step-waits g now_ms readings e f) (
                next_id_loop-AloneTo spinning (record g { sequence = next_sequence g.sequence })
                  readings))
      ]
    ])

-- With no other thread in between, the atomic operations of a call issue the id of `next_id` and
-- leave its generator and its clock.
pub next_id-Alone :
    (g : SnowflakeIdGen) (readings : List ℕ) (id : ℕ) (h : SnowflakeIdGen) (rest : List ℕ)
    → next_id g readings ≡ some (id, h, rest)
    → Alone
        (calling, record { generator = g; readings = readings })
        (issued id, record { generator = h; readings = rest })
unfolding next_id
next_id-Alone g readings id h rest e =
    subst (AloneTo calling (record { generator = g; readings = readings })) e
      (next_id_loop-AloneTo ready g readings)
