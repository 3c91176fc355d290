-- ===== src/Ring/Threads/Order.antt =====
-- Every order of the threads' steps in which the producer never finds the ring full: the items come
-- out as they went in.
use stm32_board.Base.{
  ℕ, ◌<◌, ◌≡◌, ◌≢◌, refl, sym, ap, ◌∙◌, List, [], ◌∷◌, ◌++◌, ◌==◌, Bool-cases, inl, inr, false,
  get_or, length, length-set, get_or-set_self, get_or-set_ne, arith, set, append_assoc, subst,
  ne→==,
}
use stm32_board.Ring.{SpscOverwriteRing, inc}
use stm32_board.Ring.Refine.{IsValid, contents}
use stm32_board.Ring.Threads.{
  Machine, Producer, idle, checks, counts, reloads, moves, writes, publishes, Consumer, ready,
  loaded, copies, stores, produce_from, consume_from,
}
use stm32_board.Ring.Threads.Memory.{
  contents-write, contents-publish, contents-take, inc-lt, inc_injective,
}

module _ {T : Type 0} (capacity : ℕ) (blank : T) where
  -- What the threads' local variables say of the memory.
  abbrev pub ProducerOk : Producer T → SpscOverwriteRing T → Type 0
  ProducerOk idle m = Unit
  ProducerOk (checks x h) m = h ≡ m.head
  ProducerOk (counts x h) m = ⊥
  ProducerOk (reloads x h) m = ⊥
  ProducerOk (moves x h t) m = ⊥
  ProducerOk (writes x h) m = (h ≡ m.head) × (inc capacity m.head ≢ m.tail)
  ProducerOk (publishes x h) m =
      (h ≡ m.head) × (inc capacity m.head ≢ m.tail) × (get_or m.buf m.head blank ≡ x)

  abbrev pub ConsumerOk : Consumer T → SpscOverwriteRing T → Type 0
  ConsumerOk ready m = Unit
  ConsumerOk (loaded t) m = t ≡ m.tail
  ConsumerOk (copies t) m = (t ≡ m.tail) × (m.tail ≢ m.head)
  ConsumerOk (stores t out) m = (t ≡ m.tail) × (m.tail ≢ m.head) × (out ≡ get_or m.buf m.tail blank)

  -- The items popped and those in the ring are the items pushed, in order.
  pub record Inv (m : SpscOverwriteRing T) (p : Producer T) (c : Consumer T)
      (pushed popped : List T) : Type 0 where
    pub valid : IsValid capacity m
    pub producer : ProducerOk p m
    pub consumer : ConsumerOk c m
    pub history : popped ++ contents capacity blank m ≡ pushed

  consumer_write :
      (c : Consumer T) (m : SpscOverwriteRing T) (x : T)
      → ConsumerOk c m
      → ConsumerOk c (record m { buf = set m.buf m.head x })
  consumer_write ready m x h = tt
  consumer_write (loaded t) m x h = h
  consumer_write (copies t) m x h = h
  consumer_write (stores t out) m x (e, ne, same) =
      (e, ne, same ∙ sym (get_or-set_ne m.buf x blank (λ q. ne (sym q))))

  consumer_publish :
      (c : Consumer T) (m : SpscOverwriteRing T)
      → inc capacity m.head ≢ m.tail
      → ConsumerOk c m
      → ConsumerOk c (record m { head = inc capacity m.head })
  consumer_publish ready m ne h = tt
  consumer_publish (loaded t) m ne h = h
  consumer_publish (copies t) m ne (e, h) = (e, λ q. ne (sym q))
  consumer_publish (stores t out) m ne (e, h, same) = (e, (λ q. ne (sym q)), same)

  producer_take :
      (p : Producer T) (m : SpscOverwriteRing T)
      → IsValid capacity m
      → m.tail ≢ m.head
      → ProducerOk p m
      → ProducerOk p (record m { tail = inc capacity m.tail })
  producer_take idle m v ne h = tt
  producer_take (checks x i) m v ne h = h
  producer_take (counts x i) m v ne h = h
  producer_take (reloads x i) m v ne h = h
  producer_take (moves x i t) m v ne h = h
  producer_take (writes x i) m v ne (e, h) =
      (e, inc_injective capacity blank m.head m.tail v.head_in v.tail_in (λ q. ne (sym q)))
  producer_take (publishes x i) m v ne (e, h, stored) =
      (e, inc_injective capacity blank m.head m.tail v.head_in v.tail_in (λ q. ne (sym q)), stored)

  -- The producer does not find the ring full.
  abbrev pub NotFull : Producer T → SpscOverwriteRing T → Type 0
  NotFull (checks x h) m = inc capacity h ≢ m.tail
  NotFull _ m = Unit

  abbrev pub Ordered : Machine T → Type 0
  Ordered s = Inv s.mem s.producer s.consumer s.pushed s.popped

  pub produce-Ordered :
      (p : Producer T) (s : Machine T)
      → Inv s.mem p s.consumer s.pushed s.popped
      → NotFull p s.mem
      → Ordered (produce_from capacity blank p (record s { producer = p }))
  unfolding produce_from
  produce-Ordered idle s v n = v
  produce-Ordered (checks x h) s v n = rw (ne→== (inc capacity h) s.mem.tail n) (record {
    valid = v.valid;
    producer = (v.producer, subst (λ i. inc capacity i ≢ s.mem.tail) v.producer n);
    consumer = v.consumer;
    history = v.history;
  })
  produce-Ordered (counts x h) s v n = absurd v.producer
  produce-Ordered (reloads x h) s v n = absurd v.producer
  produce-Ordered (moves x h t) s v n = absurd v.producer
  produce-Ordered (writes x h) s v n =
      let m = s.mem in
      subst
        (λ i. Inv (record m { buf = set m.buf i x }) (publishes x i) s.consumer s.pushed s.popped)
        (sym v.producer.0)
        (record {
          valid = record {
            two = v.valid.two;
            storage = length-set m.buf m.head x ∙ v.valid.storage;
            head_in = v.valid.head_in;
            tail_in = v.valid.tail_in;
            counted = v.valid.counted;
          };
          producer = (
            refl,
            v.producer.1,
            get_or-set_self m.buf m.head x blank (stored v.valid.storage v.valid.head_in),
          );
          consumer = consumer_write s.consumer m x v.consumer;
          history = ap (λ q. s.popped ++ q) (contents-write capacity blank m x v.valid) ∙ v.history;
        })
    where
      stored : length s.mem.buf ≡ capacity → s.mem.head < capacity → s.mem.head < length s.mem.buf
      stored e lt = omega arith
  produce-Ordered (publishes x h) s v n =
      let m = s.mem in
      subst
        (λ i.
          Inv (record m { head = inc capacity i }) idle s.consumer (s.pushed ++ x ∷ []) s.popped)
        (sym v.producer.0)
        (record {
          valid = record {
            two = v.valid.two;
            storage = v.valid.storage;
            head_in = inc-lt capacity blank m.head v.valid.head_in;
            tail_in = v.valid.tail_in;
            counted = v.valid.counted;
          };
          producer = tt;
          consumer = consumer_publish s.consumer m v.producer.1 v.consumer;
          history =
              ap (λ q. s.popped ++ q)
                (contents-publish capacity blank m v.valid v.producer.1
                  ∙ ap (λ y. contents capacity blank m ++ y ∷ []) v.producer.2)
              ∙ sym (append_assoc s.popped (contents capacity blank m) (x ∷ []))
              ∙ ap (λ q. q ++ x ∷ []) v.history;
        })

  pub consume-Ordered :
      (c : Consumer T) (s : Machine T)
      → Inv s.mem s.producer c s.pushed s.popped
      → Ordered (consume_from capacity blank c (record s { consumer = c }))
  unfolding consume_from
  consume-Ordered ready s v = record {
    valid = v.valid;
    producer = v.producer;
    consumer = refl;
    history = v.history;
  }
  consume-Ordered (loaded t) s v = elim (Bool-cases (t == s.mem.head)) [
    | inl e ↦
        rw e (record { valid = v.valid; producer = v.producer; consumer = tt; history = v.history })
    | inr e ↦ rw e (record {
      valid = v.valid;
      producer = v.producer;
      consumer = (v.consumer, subst (λ i. i ≢ s.mem.head) v.consumer (apart e));
      history = v.history;
    })
  ]
    where
      apart : (t == s.mem.head) ≡ false → t ≢ s.mem.head
      apart e = λ q. ground (arith, e, q)
  consume-Ordered (copies t) s v = record {
    valid = v.valid;
    producer = v.producer;
    consumer = (v.consumer.0, v.consumer.1, ap (λ i. get_or s.mem.buf i blank) v.consumer.0);
    history = v.history;
  }
  consume-Ordered (stores t out) s v =
      let m = s.mem in
      let rest = contents capacity blank (record m { tail = inc capacity m.tail }) in
      subst
        (λ i.
          Inv (record m { tail = inc capacity i }) s.producer ready s.pushed (s.popped ++ out ∷ []))
        (sym v.consumer.0)
        (record {
          valid = record {
            two = v.valid.two;
            storage = v.valid.storage;
            head_in = v.valid.head_in;
            tail_in = inc-lt capacity blank m.tail v.valid.tail_in;
            counted = v.valid.counted;
          };
          producer = producer_take s.producer m v.valid v.consumer.1 v.producer;
          consumer = tt;
          history =
              append_assoc s.popped (out ∷ []) rest
              ∙ ap (λ q. s.popped ++ q)
                  (ap (λ y. y ∷ rest) v.consumer.2
                    ∙ sym (contents-take capacity blank m v.valid v.consumer.1))
              ∙ v.history;
        })
