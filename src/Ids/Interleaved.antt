-- ===== src/Ids/Interleaved.antt =====
-- Calls of `next_id` of id_gen.rs whose atomic operations interleave.
use zkbot.Prelude.{
  ℕ, subst, Bool-cases, inl, inr, ltb, leb, nat_beq, nat_beq_iff, ltb→lt, ◌<◌, ◌≡◌, refl, none,
  some, List, [], ◌∷◌, ◌++◌, arith,
}
use zkbot.Ids.{compose, next_sequence, max_sequence}
use zkbot.Ids.Threads.{
  Call, calling, clocked, claimed, waited, issued, loaded, waiting, Shared, Stepped, step,
  step-wins, step-issues,
}

-- The calls in progress with the shared generator. A turn is one step of any thread; a thread
-- that has its id may call again. The trace holds what the turns lead to.
pub data Run : List Call × Shared → List Call → List Call × Shared → Type 0 where
  stopped : {w : List Call × Shared} → Run w [] w
  turn :
      (before after : List Call) (call d : Call) (s t : Shared) {trace : List Call}
      {w : List Call × Shared}
      → step call s ≡ some (d, t)
      → Run (before ++ (d ∷ after), t) trace w
      → Run (before ++ (call ∷ after), s) (d ∷ trace) w
  again :
      (before after : List Call) (id : ℕ) (s : Shared) {trace : List Call} {w : List Call × Shared}
      → Run (before ++ (calling ∷ after), s) trace w
      → Run (before ++ (issued id ∷ after), s) trace w

-- The milliseconds that threads have claimed, and the ids they were given.
abbrev pub claims : List Call → List ℕ
claims [] = []
claims (claimed now_ms ∷ trace) = now_ms ∷ claims trace
claims (_ ∷ trace) = claims trace

abbrev pub ids : List Call → List ℕ
ids [] = []
ids (issued id ∷ trace) = id ∷ ids trace
ids (_ ∷ trace) = ids trace

-- Each number is greater than the one before, from a first one on.
abbrev pub IsIncreasing : ℕ → List ℕ → Type 0
IsIncreasing from [] = Unit
IsIncreasing from (id ∷ ids) = (from < id) × IsIncreasing id ids

-- What a step does to the last time.
abbrev Moved : Shared → Call → Shared → Type 0
Moved s (claimed now_ms) t = (s.generator.last_ms < now_ms) × (t.generator.last_ms ≡ now_ms)
Moved s _ t = t.generator.last_ms ≡ s.generator.last_ms

abbrev MovedBy : Shared → Stepped → Type 0
MovedBy s none = Unit
MovedBy s (some (d, t)) = Moved s d t

step-MovedBy : (call : Call) (s : Shared) → MovedBy s (step call s)
unfolding step
step-MovedBy calling s =
    elim s.readings
      as (λ r. MovedBy s (elim r [
        | [] ↦ none
        | now_ms ∷ readings ↦ some (clocked now_ms, record s { readings = readings })
      ])) [ [] ↦ tt | now_ms ∷ readings ↦ refl ]
step-MovedBy waiting s =
    elim s.readings
      as (λ r. MovedBy s (elim r [
        | [] ↦ none
        | now_ms ∷ readings ↦ some (waited now_ms, record s { readings = readings })
      ])) [ [] ↦ tt | now_ms ∷ readings ↦ refl ]
step-MovedBy (clocked now_ms) s = refl
step-MovedBy (claimed now_ms) s = refl
step-MovedBy (waited now_ms) s = elim (Bool-cases (leb now_ms s.generator.last_ms)) [
  | inl e ↦ rw e refl
  | inr e ↦ rw e refl
]
step-MovedBy (issued id) s = tt
step-MovedBy (loaded now_ms last) s = elim (Bool-cases (ltb last now_ms)) [
  | inl e ↦ elim (Bool-cases (nat_beq s.generator.last_ms last)) [
    | inl f ↦
        rw (e, f)
          (omega (arith, ltb→lt last now_ms e, (nat_beq_iff s.generator.last_ms last).0 f), refl)
    | inr f ↦ rw (e, f) refl
  ]
  | inr e ↦ elim (Bool-cases (leb (next_sequence s.generator.sequence) max_sequence)) [
    | inl f ↦ rw (e, f) refl
    | inr f ↦ rw (e, f) refl
  ]
]

before_turn :
    (s : Shared) (d : Call) (t : Shared) (trace : List Call)
    → Moved s d t
    → IsIncreasing t.generator.last_ms (claims trace)
    → IsIncreasing s.generator.last_ms (claims (d ∷ trace))
before_turn s (claimed now_ms) t trace m i = (m.0, subst (λ l. IsIncreasing l (claims trace)) m.1 i)
before_turn s calling t trace m i = subst (λ l. IsIncreasing l (claims trace)) m i
before_turn s waiting t trace m i = subst (λ l. IsIncreasing l (claims trace)) m i
before_turn s (clocked _) t trace m i = subst (λ l. IsIncreasing l (claims trace)) m i
before_turn s (waited _) t trace m i = subst (λ l. IsIncreasing l (claims trace)) m i
before_turn s (issued _) t trace m i = subst (λ l. IsIncreasing l (claims trace)) m i
before_turn s (loaded _ _) t trace m i = subst (λ l. IsIncreasing l (claims trace)) m i

-- However the calls interleave, and whatever the clock shows, each millisecond that a thread claims
-- with `compare_exchange` is greater than the last time of the start and than those claimed before.
pub claims-IsIncreasing :
    {v w : List Call × Shared} {trace : List Call}
    → Run v trace w
    → IsIncreasing v.1.generator.last_ms (claims trace)
claims-IsIncreasing stopped = tt
claims-IsIncreasing (turn before after call d s t {trace} e r) =
    before_turn s d t trace (subst (MovedBy s) e (step-MovedBy call s)) (claims-IsIncreasing r)
claims-IsIncreasing (again before after id s r) = claims-IsIncreasing r

-- The second of two threads calls in the millisecond of the generator, whose sequence is 0.
counts_up :
    (first : Call) (instance_id now_ms : ℕ) (readings : List ℕ) {trace : List Call}
    {w : List Call × Shared}
    → Run
        (
          (first ∷ issued (compose now_ms instance_id 1) ∷ []),
          record {
            generator = record { instance_id = instance_id; sequence = 1; last_ms = now_ms };
            readings = readings;
          },
        )
        trace
        w
    → Run
        (
          (first ∷ calling ∷ []),
          record {
            generator = record { instance_id = instance_id; sequence = 0; last_ms = now_ms };
            readings = now_ms ∷ readings;
          },
        )
        (clocked now_ms ∷ loaded now_ms now_ms ∷ issued (compose now_ms instance_id 1) ∷ trace)
        w
unfolding step
counts_up first instance_id now_ms readings r =
    turn (first ∷ []) [] calling (clocked now_ms) _ _ refl (
      turn (first ∷ []) [] (clocked now_ms) (loaded now_ms now_ms) _ _ refl (
        turn (first ∷ []) [] (loaded now_ms now_ms) _ _ _
          (step-issues _ now_ms readings (ground arith) refl) r))

-- Between the `compare_exchange` and the `store` of one thread another thread can count up, and the
-- `store` takes its number back: from a generator whose sequence is 0, two calls that read the same
-- new millisecond, and one more, issue one id twice.
pub race :
    (instance_id last_ms now_ms : ℕ)
    → last_ms < now_ms
    → (trace : List Call) × (w : List Call × Shared) × Run
        (
          (calling ∷ calling ∷ []),
          record {
            generator = record { instance_id = instance_id; sequence = 0; last_ms = last_ms };
            readings = now_ms ∷ now_ms ∷ now_ms ∷ [];
          },
        )
        trace
        w
      × (ids trace
          ≡ compose now_ms instance_id 1
            ∷ compose now_ms instance_id 0
            ∷ compose now_ms instance_id 1
            ∷ [])
unfolding step
race instance_id last_ms now_ms h = (
  _,
  _,
  turn [] (calling ∷ []) calling (clocked now_ms) _ _ refl (
      turn [] (calling ∷ []) (clocked now_ms) (loaded now_ms last_ms) _ _ refl (
        turn [] (calling ∷ []) (loaded now_ms last_ms) (claimed now_ms) _ _
          (step-wins _ now_ms _ (ground (arith, h)))
          (counts_up (claimed now_ms) instance_id now_ms (now_ms ∷ []) (
            turn [] (issued (compose now_ms instance_id 1) ∷ []) (claimed now_ms)
              (issued (compose now_ms instance_id 0)) _ _ refl
              (again (issued (compose now_ms instance_id 0) ∷ []) [] (compose now_ms instance_id 1)
                _
                (counts_up (issued (compose now_ms instance_id 0)) instance_id now_ms []
                  stopped)))))),
  refl,
)
