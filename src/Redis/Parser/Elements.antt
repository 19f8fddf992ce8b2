-- ===== src/Redis/Parser/Elements.antt =====
-- What a value does that ends an element of an open array.
use da4qi.Base.{ℕ, suc, ◌-◌, List, ◌∷◌, false, ◌≡◌, refl, ap, ◌∙◌, arith, Bytes, ◌==◌}
use da4qi.Base.Int.{ℤ}
use da4qi.Redis.Value.{RedisValue, Values, push_back, array_value}
use da4qi.Redis.Parser.{Parser, State, start, Frame, goes_on, settle, settle_start, close_arrays}
use da4qi.Redis.Parser.Stepwise.{run, proceed}
use da4qi.Redis.Parser.Lines.{with_value}

abbrev pub frame : ℕ → Values → Frame
frame n vs = record { pending = n; items = vs }

-- The last element closes the innermost array, which is a value itself.
pub settle_last :
    (p : Parser) (b : Bytes) (k : ℤ) (v : RedisValue) (acc : Values) (fs : List Frame)
    → p.frames ≡ frame 1 acc ∷ fs
    → settle start (with_value p b k v)
      ≡ settle start (record p {
        buf = b;
        bulk_size = k;
        redis_value = array_value (push_back acc v);
        frames = fs;
      })
unfolding settle
settle_last p b k v acc fs e =
    ap (λ l. settle_start (close_arrays l v).0 (close_arrays l v).1 (with_value p b k v)) e
    ∙ (unfold settle_start close_arrays in refl)

-- Another element leaves the array open.
pub settle_more :
    (n : ℕ) (p : Parser) (b : Bytes) (k : ℤ) (v : RedisValue) (acc : Values) (fs : List Frame)
    → p.frames ≡ frame (suc (suc n)) acc ∷ fs
    → settle start (with_value p b k v)
      ≡ goes_on (record p {
        buf = b;
        bulk_size = k;
        redis_value = v;
        frames = frame (suc n) (push_back acc v) ∷ fs;
      })
unfolding settle
settle_more n p b k v acc fs e =
    ap (λ l. settle_start (close_arrays l v).0 (close_arrays l v).1 (with_value p b k v)) e
    ∙ (let open_still : suc (suc n) - 1 ≡ suc n = omega arith in
        let not_last : (suc n == 0) ≡ false = ground arith in
        unfold settle_start close_arrays in rw (open_still, not_last) refl)

pub proceed-settle :
    (state : State) (p q : Parser) (rest : Bytes)
    → settle state p ≡ settle state q
    → proceed state p rest ≡ proceed state q rest
unfolding proceed
proceed-settle state p q rest e = rw (e, proceed) refl

pub proceed_into :
    (state : State) (p q : Parser) (rest : Bytes)
    → settle state p ≡ goes_on q
    → proceed state p rest ≡ run state q rest
unfolding proceed
proceed_into state p q rest e = rw (e, proceed) refl
