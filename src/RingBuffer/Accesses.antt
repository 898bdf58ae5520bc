-- ===== src/RingBuffer/Accesses.antt =====
-- Each access of the producer and of the consumer answers as the queue does.
use mathlib.Core.List.{append-nil, nil≢cons}
use trade_bot.Base.{
  ==_iff, List, [], arith, get_elem-set, if-cases, length, length-append, length-set, refl, set,
  subst, suc, sym, zero, ℕ, ◌++◌, ◌+◌, ◌<◌, ◌==◌, ◌∙◌, ◌∷◌, ◌≡◌, ◌≢◌,
}
use trade_bot.RingBuffer.{
  Consumer, Producer, RingBuffer, consume_step, gap, increment, load, produce_step, publishing,
  reading, ready, releasing, writing,
}
use trade_bot.RingBuffer.Queue.{
  View, done, finds_nothing, pops, pushes, refuses, sees_leave, sees_values, then_history,
}
use trade_bot.RingBuffer.Arc.{
  Holds, Holds-append, Holds-set, gap-positive, gap-zero, gap_full, gap_space, increment-lt,
}
use trade_bot.RingBuffer.Invariant.{
  Consumes, Consumes-append, Produces-tail, Refines, Represents, Sees, Stores,
}
use trade_bot.RingBuffer.Loads.{Sees-pop, Sees-push, consumer_load, producer_load}

module _ {ℓ} {A : Type ℓ} (capacity : ℕ) where
  produce_ready-Refines :
      (b : RingBuffer A) (st sh : ℕ) (c : Consumer A) (value : A) (news : ℕ) (v : View A)
      → Represents capacity
          (record { buffer = b; seen_tail = st; seen_head = sh; producer = ready; consumer = c })
          v
      → Refines capacity v (
          produce_step capacity
            (record { buffer = b; seen_tail = st; seen_head = sh; producer = ready; consumer = c })
            ready
            value
            news)
  unfolding produce_step
  produce_ready-Refines b st sh c value news v rep =
      let stores = rep.stores in
      let (fewer, less, latest, sees) =
        producer_load capacity b.tail b.head st sh v.unseen v.available news stores.tail_lt
          stores.head_lt rep.sees in
      let filled : gap capacity (load capacity news st b.tail) b.head ≡ fewer + length v.held =
        omega (arith, sees.filled, stores.length_gap) in
      if-cases (Refines capacity v) (increment capacity b.head == load capacity news st b.tail) _ _
        (λ full. (
          record v { unseen = fewer },
          sees_leave fewer less (
              then_history
                (refuses (
                  let all =
                    gap_full capacity (load capacity news st b.tail) b.head sees.seen_tail_lt
                      stores.head_lt ((==_iff _ _).0 full) in
                  omega (arith, all, filled)))
                done),
          record { stores = stores; sees = sees; produces = refl; consumes = rep.consumes },
        ))
        (λ space. (
          record v { unseen = fewer },
          sees_leave fewer less done,
          record {
            stores = stores;
            sees = sees;
            produces = (
              refl,
              refl,
              let other : increment capacity b.head ≢ load capacity news st b.tail =
                    λ e. ground (arith, e, space) in
                  let free =
                    gap_space capacity (load capacity news st b.tail) b.head sees.seen_tail_lt
                      stores.head_lt other in
                  omega (arith, free, filled),
              refl,
            );
            consumes = rep.consumes;
          },
        ))

  pub produce_step-Refines :
      (b : RingBuffer A) (st sh : ℕ) (p : Producer A) (c : Consumer A) (value : A) (news : ℕ)
      (v : View A)
      → Represents capacity
          (record { buffer = b; seen_tail = st; seen_head = sh; producer = p; consumer = c })
          v
      → Refines capacity v (
          produce_step capacity
            (record { buffer = b; seen_tail = st; seen_head = sh; producer = p; consumer = c })
            p
            value
            news)
  unfolding produce_step
  produce_step-Refines b st sh ready c value news v rep =
      produce_ready-Refines b st sh c value news v rep
  produce_step-Refines b st sh (writing x head next) c value news v rep =
      let (eh, en, room, _) = rep.produces in
      let stores = rep.stores in
      let next_buffer : RingBuffer A = record b { cells = set b.cells b.head x } in
      let stored : Stores capacity next_buffer v.held = record {
        head_lt = stores.head_lt;
        tail_lt = stores.tail_lt;
        cells_length = length-set b.cells b.head x ∙ stores.cells_length;
        length_gap = stores.length_gap;
        holds =
            Holds-set capacity b.cells b.tail b.head x v.held stores.tail_lt stores.head_lt
              (omega (arith, stores.length_gap)) stores.holds;
      } in
      let there =
        get_elem-set b.cells b.head x (omega (arith, stores.head_lt, stores.cells_length)) in
      let kept =
        subst (λ l. Consumes capacity next_buffer v.available l c) (append-nil v.held)
          (Consumes-append capacity b next_buffer v.available v.held c [] refl rep.consumes) in
      subst
        (λ i. Refines capacity v (
          produce_step capacity
            (record {
              buffer = b;
              seen_tail = st;
              seen_head = sh;
              producer = writing x i next;
              consumer = c;
            })
            (writing x i next) value news))
        (sym eh)
        (
          v,
          done,
          record {
            stores = stored;
            sees = rep.sees;
            produces = (en, room, there);
            consumes = kept;
          },
        )
  produce_step-Refines b st sh (publishing x next) c value news v rep =
      let (en, room, there) = rep.produces in
      let stores = rep.stores in
      let next_buffer : RingBuffer A = record b { head = increment capacity b.head } in
      let (longer, sees) =
        Sees-push capacity b.tail b.head st sh v.unseen v.available stores.tail_lt stores.head_lt
          (omega (arith, room, stores.length_gap)) rep.sees in
      let stored : Stores capacity next_buffer (v.held ++ (x ∷ [])) = record {
        head_lt = increment-lt capacity b.head stores.head_lt;
        tail_lt = stores.tail_lt;
        cells_length = stores.cells_length;
        length_gap = omega (arith, longer, stores.length_gap, length-append v.held (x ∷ []));
        holds =
            Holds-append capacity b.cells b.tail b.head x v.held stores.tail_lt stores.head_lt
              stores.length_gap there stores.holds;
      } in
      subst
        (λ i. Refines capacity v (
          produce_step capacity
            (record {
              buffer = b;
              seen_tail = st;
              seen_head = sh;
              producer = publishing x i;
              consumer = c;
            })
            (publishing x i) value news))
        (sym en)
        (
          record v { held = v.held ++ (x ∷ []) },
          then_history (pushes room) done,
          record {
            stores = stored;
            sees = sees;
            produces = refl;
            consumes =
                Consumes-append capacity b next_buffer v.available v.held c (x ∷ []) refl
                  rep.consumes;
          },
        )

  consume_ready-Refines :
      (b : RingBuffer A) (st sh : ℕ) (p : Producer A) (news : ℕ) (v : View A)
      → Represents capacity
          (record { buffer = b; seen_tail = st; seen_head = sh; producer = p; consumer = ready })
          v
      → Refines capacity v (
          consume_step capacity
            (record { buffer = b; seen_tail = st; seen_head = sh; producer = p; consumer = ready })
            ready
            news)
  unfolding consume_step
  consume_ready-Refines b st sh p news v rep =
      let stores = rep.stores in
      let (more, grown, bounded, latest, sees) =
        consumer_load capacity b.tail b.head st sh v.unseen v.available news stores.tail_lt
          stores.head_lt rep.sees in
      if-cases (Refines capacity v) (b.tail == load capacity news sh b.head) _ _
        (λ same. (
          record v { available = more },
          sees_values more grown (omega (arith, bounded, stores.length_gap))
              (then_history (finds_nothing (sym sees.known ∙ gap-zero capacity _ _ same)) done),
          record { stores = stores; sees = sees; produces = rep.produces; consumes = refl },
        ))
        (λ other. (
          record v { available = more },
          sees_values more grown (omega (arith, bounded, stores.length_gap)) done,
          record {
            stores = stores;
            sees = sees;
            produces = rep.produces;
            consumes = (
              refl,
              subst (λ n. 0 < n) sees.known
                  (gap-positive capacity _ _ stores.tail_lt sees.seen_head_lt other),
              refl,
            );
          },
        ))

  pub consume_step-Refines :
      (b : RingBuffer A) (st sh : ℕ) (p : Producer A) (c : Consumer A) (news unseen : ℕ)
      (q : List A) (available : ℕ)
      → Represents capacity
          (record { buffer = b; seen_tail = st; seen_head = sh; producer = p; consumer = c })
          (record { unseen = unseen; held = q; available = available })
      → Refines capacity
          (record { unseen = unseen; held = q; available = available })
          (consume_step capacity
            (record { buffer = b; seen_tail = st; seen_head = sh; producer = p; consumer = c })
            c
            news)
  unfolding consume_step Holds
  consume_step-Refines b st sh p ready news unseen q available rep =
      consume_ready-Refines b st sh p news
        (record { unseen = unseen; held = q; available = available }) rep
  consume_step-Refines b st sh p (reading tail) news unseen [] available rep =
      let (e, positive, _) = rep.consumes in
      absurd (omega (arith, positive, rep.sees.between, rep.stores.length_gap))
  consume_step-Refines b st sh p (reading tail) news unseen (x ∷ rest) available rep =
      let (e, positive, _) = rep.consumes in
      (
        record { unseen = unseen; held = x ∷ rest; available = available },
        done,
        record {
          stores = rep.stores;
          sees = rep.sees;
          produces = rep.produces;
          consumes = (e, positive, x, rest, refl, rw e (rep.stores.holds.0));
        },
      )
  consume_step-Refines b st sh p (releasing out tail) news unseen [] available rep =
      let (e, positive, x, rest, split, read) = rep.consumes in absurd (nil≢cons split)
  consume_step-Refines b st sh p (releasing out tail) news unseen (y ∷ ys) zero rep =
      let (e, positive, x, rest, split, read) = rep.consumes in absurd (omega (arith, positive))
  consume_step-Refines b st sh p (releasing out tail) news unseen (y ∷ ys) (suc fewer) rep =
      let (e, positive, x, rest, split, read) = rep.consumes in
      let stores = rep.stores in
      let same : y ≡ x = cc in
      let next_buffer : RingBuffer A = record b { tail = increment capacity b.tail } in
      let (closer, sees) =
        Sees-pop capacity b.tail b.head st sh unseen fewer stores.tail_lt stores.head_lt
          (subst (Sees capacity b.tail b.head st sh unseen) (omega arith) rep.sees) in
      let stored : Stores capacity next_buffer ys = record {
        head_lt = stores.head_lt;
        tail_lt = increment-lt capacity b.tail stores.tail_lt;
        cells_length = stores.cells_length;
        length_gap = omega (arith, closer, stores.length_gap);
        holds = stores.holds.1;
      } in
      rw (e, read, sym same)
        (
          record { unseen = unseen + 1; held = ys; available = fewer },
          then_history (pops refl (omega arith)) done,
          record {
            stores = stored;
            sees = sees;
            produces =
                Produces-tail capacity b (increment capacity b.tail) (unseen + length (y ∷ ys))
                  (unseen + 1 + length ys) p (omega arith) rep.produces;
            consumes = refl;
          },
        )
