-- ===== src/Handover/Gives.antt =====
-- The loop that gives old buffers to the sstables of the next level.
use ringdb.Prelude.{
  IfSome, IfSome-bind, IfSome-if, ℕ, zero, suc, ◌+◌, ◌*◌, ◌^◌, ◌<◌, ◌≡◌, refl, ap, Bool, true,
  Option, none, some, List, [], ◌∷◌, ◌>>=◌, length, get_elem?, ltb, lt→ltb, not, ◌&&◌,
  if◌then◌else◌, arith, add32, sub32, Bool-cases, inl, inr,
}
use ringdb.Config.{Config, max_sstable_height, max_buffer_set_size}
use ringdb.Guards.{try_lock}
use ringdb.BufferQueue.{BufferQueue, push_back}
use ringdb.Handover.{Receiver, Giving, give_old, give_one, give_pass, give_all}

-- An sstable with a part that was not given buffers yet, counted.
abbrev waits : Receiver → ℕ
waits r = if r.has_part && not r.given then 1 else 0

num_waiting : List Receiver → ℕ
num_waiting [] = 0
num_waiting (r ∷ rs) = waits r + num_waiting rs

any {ℓ} : {A : Type ℓ} (o : Option A) → IfSome (λ _. Unit) o
any none = tt
any (some a) = tt

module _ (c : Config) where
  SameCount : Giving → Giving × BufferQueue → Type 0
  SameCount g p = p.0.num_given ≡ g.num_given

  give_old-SameCount :
      (quantity old_limit : ℕ) (g : Giving) (q : BufferQueue)
      → IfSome (SameCount g) (give_old c quantity old_limit g q)
  unfolding give_old SameCount
  give_old-SameCount zero old_limit g q = refl
  give_old-SameCount (suc quantity) old_limit g q =
      let from = sub32 g.info.insert_buffers_from 1 in
      let g' : Giving = record g {
        info = record g.info { insert_buffers_from = from };
        num_old_buffers_given = add32 g.num_old_buffers_given 1;
      } in
      let given =
        get_elem? g.info.page_cache_buffers from >>= push_back (max_buffer_set_size c) q in
      IfSome-if (SameCount g) (ltb g.num_old_buffers_given old_limit)
        (given >>= give_old c quantity old_limit g') (some (g, q))
        (IfSome-bind (λ _. Unit) (SameCount g) given (give_old c quantity old_limit g') (any given)
          (λ q' _. give_old-SameCount quantity old_limit g' q'))
        refl

  -- One turn counts at most the sstable that it serves.
  Counts : Giving → Receiver → Giving × Receiver → Type 0
  Counts g r p = p.0.num_given + waits p.1 ≡ g.num_given + waits r

  give_one-Counts :
      (spurious : Bool) (old_limit : ℕ) (g : Giving) (r : Receiver)
      → g.num_given + 1 < 2 ^ 32
      → IfSome (Counts g r) (give_one c spurious old_limit g r)
  unfolding give_one Counts SameCount
  give_one-Counts spurious old_limit g r small =
      elim (Bool-cases (r.has_part && (not r.given && try_lock spurious r.guard))) [
        | inr f ↦ rw f refl
        | inl t ↦
            let w : waits r ≡ 1 = ground arith in
            let g' : Giving = record g { num_given = add32 g.num_given 1 } in
            let chosen =
              if ltb r.queue.cur_num_buffers (max_sstable_height c)
              then give_old c (r.proportion * old_limit) old_limit g' r.queue
              else some (g', r.queue) in
            rw t (
              IfSome-bind (SameCount g') (Counts g r) chosen
                (λ p. some (p.0, record r { queue = p.1; given = true }))
                (IfSome-if (SameCount g') (ltb r.queue.cur_num_buffers (max_sstable_height c))
                  (give_old c (r.proportion * old_limit) old_limit g' r.queue) (some (g', r.queue))
                  (give_old-SameCount (r.proportion * old_limit) old_limit g' r.queue) refl)
                (λ p e. ground (arith, t, e, w, small)))
      ]

  -- A pass counts at most the sstables that wait.
  CountsAll : Giving → List Receiver → Giving × List Receiver → Type 0
  CountsAll g rs p = p.0.num_given + num_waiting p.1 ≡ g.num_given + num_waiting rs

  give_pass-CountsAll :
      (spurious : ℕ → Bool) (i old_limit : ℕ) (g : Giving) (rs : List Receiver)
      → g.num_given + num_waiting rs + length rs < 2 ^ 32
      → IfSome (CountsAll g rs) (give_pass c spurious i old_limit g rs)
  unfolding give_pass CountsAll num_waiting Counts
  give_pass-CountsAll spurious i old_limit g [] small = refl
  give_pass-CountsAll spurious i old_limit g (r ∷ rs) small =
      IfSome-bind (Counts g r) (CountsAll g (r ∷ rs)) (give_one c (spurious i) old_limit g r)
        (λ p. give_pass c spurious (i + 1) old_limit p.0 rs >>= λ p'. some (p'.0, p.1 ∷ p'.1))
        (give_one-Counts (spurious i) old_limit g r (omega arith))
        (λ p e.
          IfSome-bind (CountsAll p.0 rs) (CountsAll g (r ∷ rs))
            (give_pass c spurious (i + 1) old_limit p.0 rs) (λ p'. some (p'.0, p.1 ∷ p'.1))
            (give_pass-CountsAll spurious (i + 1) old_limit p.0 rs (omega (arith, e, small)))
            (λ p' e'. omega (arith, e, e')))

  LengthKept : List Receiver → Giving × List Receiver → Type 0
  LengthKept rs p = length p.1 ≡ length rs

  give_pass-length :
      (spurious : ℕ → Bool) (i old_limit : ℕ) (g : Giving) (rs : List Receiver)
      → IfSome (LengthKept rs) (give_pass c spurious i old_limit g rs)
  unfolding give_pass LengthKept
  give_pass-length spurious i old_limit g [] = refl
  give_pass-length spurious i old_limit g (r ∷ rs) =
      IfSome-bind (λ _. Unit) (LengthKept (r ∷ rs)) (give_one c (spurious i) old_limit g r)
        (λ p. give_pass c spurious (i + 1) old_limit p.0 rs >>= λ p'. some (p'.0, p.1 ∷ p'.1))
        (any (give_one c (spurious i) old_limit g r))
        (λ p _.
          IfSome-bind (LengthKept rs) (LengthKept (r ∷ rs))
            (give_pass c spurious (i + 1) old_limit p.0 rs) (λ p'. some (p'.0, p.1 ∷ p'.1))
            (give_pass-length spurious (i + 1) old_limit p.0 rs) (λ p' e'. ap suc e'))

  IfSome-none :
      (o : Option (Giving × List Receiver)) (P Q : Giving × List Receiver → Type 0)
      (f : Giving × List Receiver → Option (Giving × List Receiver))
      → IfSome P o
      → IfSome Q o
      → ((p : Giving × List Receiver) → P p → Q p → f p ≡ none)
      → (o >>= f) ≡ none
  IfSome-none none P Q f p q k = refl
  IfSome-none (some a) P Q f p q k = k a p q

-- When there are more parts than sstables of the next level that still wait for buffers, as whenever the
-- batch has a part for the level behind it, the loop never ends.
give_all-none :
    (c : Config) (fuel : ℕ) (spurious : ℕ → ℕ → Bool) (num_req_batches old_limit : ℕ) (g : Giving)
    (rs : List Receiver)
    → g.num_given + num_waiting rs < num_req_batches
    → num_req_batches + length rs < 2 ^ 32
    → give_all c spurious fuel num_req_batches old_limit g rs ≡ none
unfolding give_all CountsAll LengthKept
give_all-none c zero spurious num_req_batches old_limit g rs more small = refl
give_all-none c (suc fuel) spurious num_req_batches old_limit g rs more small =
    rw (give_all, lt→ltb g.num_given num_req_batches (omega arith))
      (IfSome-none c (give_pass c (spurious fuel) 0 old_limit g rs) (CountsAll c g rs)
        (LengthKept c rs) (λ p. give_all c spurious fuel num_req_batches old_limit p.0 p.1)
        (give_pass-CountsAll c (spurious fuel) 0 old_limit g rs (omega arith))
        (give_pass-length c (spurious fuel) 0 old_limit g rs)
        (λ p e l.
          give_all-none c fuel spurious num_req_batches old_limit p.0 p.1 (omega (arith, e, more))
            (omega (arith, l, small))))
