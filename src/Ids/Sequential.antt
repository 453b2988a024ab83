-- ===== src/Ids/Sequential.antt =====
-- One thread that asks `next_id` of id_gen.rs for ids.
use zkbot.Prelude.{
  ℕ, zero, suc, ◌+◌, ◌*◌, ◌^◌, ◌≤◌, ◌<◌, ◌≡◌, refl, ◌/◌, ◌%◌, leb, inl, inr, Bool-cases, dec_lt,
  subst, ap, not_leb→lt, true, none, some, is_some, List, [], ◌∷◌, ◌++◌, arith, if◌then◌else◌,
}
use zkbot.Ids.Fields.{compose_fields, compose_mono}
use zkbot.Ids.{
  SnowflakeIdGen, compose, next_sequence, max_sequence, max_instance_id, Phase, ready, spinning,
  Issued, next_id_loop, next_id,
}

-- In the loop or in the wait.
next_id_loop_returns :
    (phase : Phase) (g : SnowflakeIdGen) (before : List ℕ) (a b : ℕ) (rest : List ℕ)
    → g.last_ms < a
    → g.last_ms < b
    → is_some (next_id_loop phase g (before ++ (a ∷ b ∷ rest))) ≡ true
unfolding next_id_loop
next_id_loop_returns ready g [] a b rest h k = ground (arith, h, k)
next_id_loop_returns spinning g [] a b rest h k = ground (arith, h, k)
next_id_loop_returns spinning g (now_ms ∷ before) a b rest h k =
    next_id_loop_returns (if leb now_ms g.last_ms then spinning else ready) g before a b rest h k
next_id_loop_returns ready g (now_ms ∷ before) a b rest h k = ground (
  arith,
  next_id_loop_returns spinning (record g { sequence = next_sequence g.sequence }) before a b rest h
      k,
)

-- The readings are below 2^41 and do not fall, from a first one on.
abbrev pub IsClock : ℕ → List ℕ → Type 0
IsClock from [] = Unit
IsClock from (x ∷ xs) = (from ≤ x) × (x < 2 ^ 41) × IsClock x xs

-- What a call gives: a later pair of time and sequence, kept in the generator.
record IsNext (g : SnowflakeIdGen) (id : ℕ) (h : SnowflakeIdGen) (rest : List ℕ) : Type 0 where
  issued : id ≡ compose h.last_ms h.instance_id h.sequence
  same_instance : h.instance_id ≡ g.instance_id
  in_range : h.sequence ≤ max_sequence
  in_time : h.last_ms < 2 ^ 41
  grows : g.last_ms * 2 ^ 22 + g.sequence < h.last_ms * 2 ^ 22 + h.sequence
  on_clock : IsClock h.last_ms rest

abbrev NextOf : SnowflakeIdGen → Issued → Type 0
NextOf g none = Unit
NextOf g (some (id, h, rest)) = IsNext g id h rest

-- A clock that has passed the last time.
next_id_loop-new_ms :
    (g : SnowflakeIdGen) (now_ms : ℕ) (readings : List ℕ)
    → g.last_ms < now_ms
    → next_id_loop ready g (now_ms ∷ readings)
      ≡ some (compose now_ms g.instance_id 0, record g { sequence = 0; last_ms = now_ms }, readings)
unfolding next_id_loop
next_id_loop-new_ms g now_ms readings h = ground (arith, h)

next_sequence_in_range :
    (sequence : ℕ) → sequence ≤ max_sequence → next_sequence sequence ≡ sequence + 1
next_sequence_in_range sequence h = omega arith

next_id_loop-same_ms :
    (g : SnowflakeIdGen) (now_ms : ℕ) (readings : List ℕ)
    → now_ms ≤ g.last_ms
    → g.sequence < max_sequence
    → next_id_loop ready g (now_ms ∷ readings)
      ≡ some (
        compose now_ms g.instance_id (g.sequence + 1),
        record g { sequence = g.sequence + 1 },
        readings,
      )
unfolding next_id_loop
next_id_loop-same_ms g now_ms readings h k =
    rw (next_sequence_in_range g.sequence (omega (arith, k))) (ground (arith, h, k))

next_id_loop-exhausted :
    (g : SnowflakeIdGen) (now_ms : ℕ) (readings : List ℕ)
    → now_ms ≤ g.last_ms
    → g.sequence ≡ max_sequence
    → next_id_loop ready g (now_ms ∷ readings)
      ≡ next_id_loop spinning (record g { sequence = g.sequence + 1 }) readings
unfolding next_id_loop
next_id_loop-exhausted g now_ms readings h k =
    rw (next_sequence_in_range g.sequence (omega (arith, k))) (ground (arith, h, k))

-- A clock that has passed the last time brings a new millisecond at once.
passed-IsNext :
    (g : SnowflakeIdGen) (from : ℕ) (readings : List ℕ)
    → g.last_ms < from
    → g.sequence ≤ max_sequence + 1
    → IsClock from readings
    → NextOf g (next_id_loop ready g readings)
unfolding next_id_loop
passed-IsNext g from [] h q c = tt
passed-IsNext g from (a ∷ readings) h q (r, t, c) =
    rw (next_id_loop-new_ms g a readings (omega (arith, h, r))) (record {
      issued = refl;
      same_instance = refl;
      in_range = omega arith;
      in_time = t;
      grows = omega (arith, h, r, q);
      on_clock = c;
    })

-- While it waits, a rising clock brings it to a new millisecond.
waits-IsNext :
    (g : SnowflakeIdGen) (from : ℕ) (readings : List ℕ)
    → g.last_ms ≤ from
    → g.sequence ≤ max_sequence + 1
    → IsClock from readings
    → NextOf g (next_id_loop spinning g readings)
unfolding next_id_loop
waits-IsNext g from [] h q c = tt
waits-IsNext g from (a ∷ readings) h q (r, t, c) = elim (Bool-cases (leb a g.last_ms)) [
  | inl e ↦ rw e (waits-IsNext g a readings (omega (arith, h, r)) q c)
  | inr e ↦ rw e (passed-IsNext g a readings (not_leb→lt a g.last_ms e) q c)
]

-- What follows the generator that has counted up follows the one before.
counted-NextOf :
    (g : SnowflakeIdGen) (o : Issued)
    → NextOf (record g { sequence = g.sequence + 1 }) o
    → NextOf g o
counted-NextOf g none h = tt
counted-NextOf g (some (id, h, rest)) n = record {
  issued = n.issued;
  same_instance = n.same_instance;
  in_range = n.in_range;
  in_time = n.in_time;
  grows = omega (arith, n.grows);
  on_clock = n.on_clock;
}

same_time : (now last : ℕ) → last ≤ now → (last < now → ⊥) → now ≡ last
same_time now last r same = omega (arith, r, same)

next_id-IsNext :
    (g : SnowflakeIdGen) (readings : List ℕ)
    → g.sequence ≤ max_sequence
    → g.last_ms < 2 ^ 41
    → IsClock g.last_ms readings
    → NextOf g (next_id g readings)
unfolding next_id next_id_loop
next_id-IsNext g [] q b c = tt
next_id-IsNext g (now_ms ∷ readings) q b (r, t, c) = elim (dec_lt g.last_ms now_ms) [
  | yes later ↦
      passed-IsNext g now_ms (now_ms ∷ readings) later (omega (arith, q)) (omega arith, t, c)
  | no same ↦ elim (dec_lt g.sequence max_sequence) [
    | yes more ↦ rw (next_id_loop-same_ms g now_ms readings (omega (arith, same)) more) (record {
      issued =
          ap (λ time. compose time g.instance_id (g.sequence + 1))
            (same_time now_ms g.last_ms r same);
      same_instance = refl;
      in_range = omega (arith, more);
      in_time = b;
      grows = omega arith;
      on_clock = subst (λ time. IsClock time readings) (same_time now_ms g.last_ms r same) c;
    })
    | no full ↦
        rw (next_id_loop-exhausted g now_ms readings (omega (arith, same)) (omega (arith, q, full)))
          (counted-NextOf g _ (
            waits-IsNext (record g { sequence = g.sequence + 1 }) now_ms readings r
              (omega (arith, q)) c))
  ]
]

-- The ids of n calls of one thread, as far as the readings go.
abbrev pub run_next_ids : ℕ → SnowflakeIdGen → List ℕ → List ℕ
run_next_ids zero g readings = []
run_next_ids (suc n) g readings = elim (next_id g readings) [
  | none ↦ []
  | some (id, h, rest) ↦ id ∷ run_next_ids n h rest
]

-- Each id is greater than the one before, from a first one on, and names the instance.
abbrev pub AreIssued : ℕ → ℕ → List ℕ → Type 0
AreIssued instance_id from [] = Unit
AreIssued instance_id from (id ∷ ids) =
    (from < id) × (id / 2 ^ 12 % 2 ^ 10 ≡ instance_id) × AreIssued instance_id id ids

-- On a clock that does not fall and stays below 2^41, a thread alone gets greater and greater ids
-- that all name its instance, however many calls it makes and whenever the sequence runs out
-- between them, if it starts with an instance id and a sequence in range.
pub run_next_ids-AreIssued :
    (n : ℕ) (g : SnowflakeIdGen) (readings : List ℕ)
    → g.instance_id ≤ max_instance_id
    → g.sequence ≤ max_sequence
    → g.last_ms < 2 ^ 41
    → IsClock g.last_ms readings
    → AreIssued g.instance_id
        (compose g.last_ms g.instance_id g.sequence)
        (run_next_ids n g readings)
run_next_ids-AreIssued zero g readings i q b c = tt
run_next_ids-AreIssued (suc n) g readings i q b c =
    let step =
      elim (next_id g readings)
        as (λ o.
          NextOf g o
          → AreIssued g.instance_id (compose g.last_ms g.instance_id g.sequence)
              (elim o [ none ↦ [] | some (id, h, rest) ↦ id ∷ run_next_ids n h rest ])) [
                | none ↦ λ m. tt
                | some (id, h, rest) ↦ λ m. (
                  rw (m.issued, m.same_instance)
                      (compose_mono g.last_ms h.last_ms g.instance_id g.sequence h.sequence b
                        m.in_time (omega (arith, i)) (omega (arith, q)) (omega (arith, m.in_range))
                        m.grows),
                  rw (m.issued, m.same_instance)
                      (compose_fields h.last_ms g.instance_id h.sequence m.in_time
                        (omega (arith, i)) (omega (arith, m.in_range))).2,
                  subst (λ x. AreIssued x id (run_next_ids n h rest)) m.same_instance
                      (rw m.issued (
                        run_next_ids-AreIssued n h rest (omega (arith, m.same_instance, i))
                          m.in_range m.in_time m.on_clock)),
                )
              ] in
    step (next_id-IsNext g readings q b c)

-- A call returns by the second reading past the last time, whatever the clock shows before.
pub next_id_returns :
    (g : SnowflakeIdGen) (before : List ℕ) (a b : ℕ) (rest : List ℕ)
    → g.last_ms < a
    → g.last_ms < b
    → is_some (next_id g (before ++ (a ∷ b ∷ rest))) ≡ true
unfolding next_id
next_id_returns g before a b rest h k = next_id_loop_returns ready g before a b rest h k
