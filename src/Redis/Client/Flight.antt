-- ===== src/Redis/Client/Flight.antt =====
-- The queue of commands and the operation in flight for its front: the handlers still to be called
-- and the data still to be sent.
use da4qi.Base.{
  suc, ◌+◌, ◌≤◌, arith, length, length-append, List, [], ◌∷◌, ◌++◌, Option, Bytes, append_assoc,
  append-nil, ◌≡◌, refl, ap,
}
use da4qi.Redis.Value.{RedisValue}
use da4qi.Redis.Client.{CommandNode, Operation, writing, reading}

module _ {H : Type 0} where
  abbrev pub handlers : List (CommandNode H) → List (Option H)
  handlers [] = []
  handlers (n ∷ q) = n.on ∷ handlers q

  abbrev pub contents : List (CommandNode H) → List Bytes
  contents [] = []
  contents (n ∷ q) = n.bytes ∷ contents q

  abbrev pub called : List (Option H × RedisValue) → List (Option H)
  called [] = []
  called ((on, v) ∷ l) = on ∷ called l

  -- The handlers still to be called. That of a reply that is awaited stands in the operation.
  abbrev pub owed : List (Operation H) → List (CommandNode H) → List (Option H)
  owed (reading p on ∷ ops) (n ∷ q) = on ∷ handlers q
  owed _ q = handlers q

  -- The data still to be sent.
  abbrev pub unsent : List (Operation H) → List (CommandNode H) → List Bytes
  unsent (op ∷ ops) (n ∷ q) = contents q
  unsent _ q = contents q

  -- No operation, or one, on behalf of the front of the queue.
  abbrev pub IsFlight : List (Operation H) → List (CommandNode H) → Type 0
  IsFlight [] q = Unit
  IsFlight (writing b ∷ []) (n ∷ q) = b ≡ n.bytes
  IsFlight (reading p on ∷ []) (n ∷ q) = Unit
  IsFlight _ _ = ⊥

  pub handlers-append : (q r : List (CommandNode H)) → handlers (q ++ r) ≡ handlers q ++ handlers r
  handlers-append [] r = refl
  handlers-append (n ∷ q) r = ap (◌∷◌ n.on) (handlers-append q r)

  pub contents-append : (q r : List (CommandNode H)) → contents (q ++ r) ≡ contents q ++ contents r
  contents-append [] r = refl
  contents-append (n ∷ q) r = ap (◌∷◌ n.bytes) (contents-append q r)

  pub called-append : (l m : List (Option H × RedisValue)) → called (l ++ m) ≡ called l ++ called m
  called-append [] m = refl
  called-append ((on, v) ∷ l) m = ap (◌∷◌ on) (called-append l m)

  length-handlers : (q : List (CommandNode H)) → length (handlers q) ≡ length q
  length-handlers [] = refl
  length-handlers (n ∷ q) = ap suc (length-handlers q)

  length-contents : (q : List (CommandNode H)) → length (contents q) ≡ length q
  length-contents [] = refl
  length-contents (n ∷ q) = ap suc (length-contents q)

  length-called : (l : List (Option H × RedisValue)) → length (called l) ≡ length l
  length-called [] = refl
  length-called ((on, v) ∷ l) = ap suc (length-called l)

  owed-append :
      (ops : List (Operation H)) (n : CommandNode H) (q r : List (CommandNode H))
      → owed ops (n ∷ q ++ r) ≡ owed ops (n ∷ q) ++ handlers r
  owed-append [] n q r = handlers-append (n ∷ q) r
  owed-append (writing b ∷ ops) n q r = handlers-append (n ∷ q) r
  owed-append (reading p on ∷ ops) n q r = ap (◌∷◌ on) (handlers-append q r)

  unsent-append :
      (ops : List (Operation H)) (n : CommandNode H) (q r : List (CommandNode H))
      → unsent ops (n ∷ q ++ r) ≡ unsent ops (n ∷ q) ++ contents r
  unsent-append [] n q r = contents-append (n ∷ q) r
  unsent-append (op ∷ ops) n q r = contents-append q r

  IsFlight-append :
      (ops : List (Operation H)) (n : CommandNode H) (q r : List (CommandNode H))
      → IsFlight ops (n ∷ q)
      → IsFlight ops (n ∷ q ++ r)
  IsFlight-append [] n q r h = tt
  IsFlight-append (writing b ∷ []) n q r h = h
  IsFlight-append (reading p on ∷ []) n q r h = tt
  IsFlight-append (writing b ∷ op ∷ ops) n q r h = h
  IsFlight-append (reading p on ∷ op ∷ ops) n q r h = h

  IsFlight-empty : (ops : List (Operation H)) → IsFlight ops [] → ops ≡ []
  IsFlight-empty [] h = refl
  IsFlight-empty (writing b ∷ []) h = absurd h
  IsFlight-empty (reading p on ∷ []) h = absurd h
  IsFlight-empty (writing b ∷ op ∷ ops) h = absurd h
  IsFlight-empty (reading p on ∷ op ∷ ops) h = absurd h

  -- The operation that ends was the only one.
  pub IsFlight-only :
      (before after : List (Operation H)) (op : Operation H) (q : List (CommandNode H))
      → IsFlight (before ++ op ∷ after) q
      → (before ++ op ∷ after ≡ op ∷ []) × (before ++ after ≡ []) × IsFlight (op ∷ []) q
  IsFlight-only [] [] op q h = (refl, refl, h)
  IsFlight-only [] (a ∷ after) (writing b) q h = absurd h
  IsFlight-only [] (a ∷ after) (reading p on) q h = absurd h
  IsFlight-only (writing b ∷ []) after op q h = absurd h
  IsFlight-only (reading p on ∷ []) after op q h = absurd h
  IsFlight-only (writing b ∷ x ∷ before) after op q h = absurd h
  IsFlight-only (reading p on ∷ x ∷ before) after op q h = absurd h

  owed_lengths :
      (ops : List (Operation H)) (q : List (CommandNode H))
      → (length (owed ops q) ≡ length q)
        × (length (unsent ops q) ≤ length q)
        × (length q ≤ length (unsent ops q) + 1)
  owed_lengths [] q = omega (arith, length-handlers q, length-contents q)
  owed_lengths (writing b ∷ ops) [] = (refl, omega arith, omega arith)
  owed_lengths (writing b ∷ ops) (n ∷ q) = omega (arith, length-handlers q, length-contents q)
  owed_lengths (reading p on ∷ ops) [] = (refl, omega arith, omega arith)
  owed_lengths (reading p on ∷ ops) (n ∷ q) = omega (arith, length-handlers q, length-contents q)

-- The parts that being orderly is about.
abbrev pub AreOrderly :
    {H : Type 0}
    → List (Operation H)
    → List (CommandNode H)
    → List (Option H × RedisValue)
    → List Bytes
    → List (CommandNode H)
    → Type 0
AreOrderly ops q answers sent issued =
    IsFlight ops q
    × (called answers ++ owed ops q ≡ handlers issued)
    × (sent ++ unsent ops q ≡ contents issued)

module _ {H : Type 0} (answers : List (Option H × RedisValue)) (sent : List Bytes)
    (issued : List (CommandNode H)) where
  pub AreOrderly-first :
      (ops : List (Operation H)) (n : CommandNode H)
      → AreOrderly ops [] answers sent issued
      → AreOrderly
          (ops ++ writing n.bytes ∷ [])
          (n ∷ [])
          answers
          (sent ++ n.bytes ∷ [])
          (issued ++ n ∷ [])
  AreOrderly-first [] n (f, a, w) = (
    refl,
    rw (handlers-append, ← a, append-nil) refl,
    rw (contents-append, ← w, append-nil, append-nil) refl,
  )
  AreOrderly-first (x ∷ ops) n (f, _, _) = cc (IsFlight-empty (x ∷ ops) f)

  pub AreOrderly-queued :
      (ops : List (Operation H)) (m n : CommandNode H) (q : List (CommandNode H))
      → AreOrderly ops (m ∷ q) answers sent issued
      → AreOrderly ops (m ∷ q ++ n ∷ []) answers sent (issued ++ n ∷ [])
  AreOrderly-queued ops m n q (f, a, w) = (
    IsFlight-append ops m q (n ∷ []) f,
    rw (owed-append, ← append_assoc, a, handlers-append) refl,
    rw (unsent-append, ← append_assoc, w, contents-append) refl,
  )

  -- At most one more of the data is sent than handlers are called.
  pub balance :
      (ops : List (Operation H)) (q : List (CommandNode H))
      → called answers ++ owed ops q ≡ handlers issued
      → sent ++ unsent ops q ≡ contents issued
      → (length answers ≤ length sent) × (length sent ≤ length answers + 1)
  balance ops q a w =
      let (o, u, v) = owed_lengths ops q in
      omega (
        arith,
        o,
        u,
        v,
        ap length a,
        ap length w,
        length-append (called answers) (owed ops q),
        length-append sent (unsent ops q),
        length-called answers,
        length-handlers issued,
        length-contents issued,
      )
