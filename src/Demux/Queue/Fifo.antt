-- ===== src/Demux/Queue/Fifo.antt =====
-- The queue against a list of messages with their charges, oldest first.
use ami.Base.{
  ℕ, zero, suc, ◌+◌, ◌≤◌, ◌<◌, ◌≡◌, refl, sym, ap, ◌∙◌, List, [], ◌∷◌, ◌++◌, some, arith, length,
  drop, set, get_or, length-append, length-set, length-drop, ok,
}
use ami.Demux.Queue.{Entry, Queue, blank, empty, len, push, pop, released, compacted}

module _ {T : Type 0} where
  -- The entries that wait, oldest first.
  abbrev pub contents : Queue T → List (Entry T)
  contents q = drop q.head q.entries

  abbrev pub charge : List (Entry T) → ℕ
  charge [] = 0
  charge (e ∷ es) = e.size + charge es

  pub record IsValid (q : Queue T) : Type 0 where
    pub in_range : q.head ≤ length q.entries
    pub charged : q.bytes ≡ charge (contents q)

  charge-append : (xs ys : List (Entry T)) → charge (xs ++ ys) ≡ charge xs + charge ys
  charge-append [] ys = omega arith
  charge-append (x ∷ xs) ys = omega (arith, charge-append xs ys)

  drop-append :
      (n : ℕ) (xs ys : List (Entry T)) → n ≤ length xs → drop n (xs ++ ys) ≡ drop n xs ++ ys
  drop-append zero xs ys h = refl
  drop-append (suc n) [] ys h = absurd (omega arith)
  drop-append (suc n) (x ∷ xs) ys h = drop-append n xs ys (omega arith)

  drop-set :
      (n : ℕ) (xs : List (Entry T)) (v : Entry T) → drop (n + 1) (set xs n v) ≡ drop (n + 1) xs
  drop-set zero [] v = ground arith
  drop-set zero (x ∷ xs) v = ground arith
  drop-set (suc n) [] v = ground arith
  drop-set (suc n) (x ∷ xs) v = ground (arith, drop-set n xs v)

  drop-get_or :
      (n : ℕ) (xs : List (Entry T))
      → n < length xs
      → drop n xs ≡ get_or xs n blank ∷ drop (n + 1) xs
  drop-get_or n [] h = absurd (omega arith)
  drop-get_or zero (x ∷ xs) h = ground arith
  drop-get_or (suc n) (x ∷ xs) h = ground (arith, drop-get_or n xs)

  drop-length : (n : ℕ) (xs : List (Entry T)) → n ≡ length xs → drop n xs ≡ []
  drop-length zero [] h = refl
  drop-length zero (x ∷ xs) h = absurd (omega arith)
  drop-length (suc n) [] h = refl
  drop-length (suc n) (x ∷ xs) h = drop-length n xs (omega arith)

  pub empty-IsValid : IsValid (empty {T = T})
  empty-IsValid = record { in_range = omega arith; charged = refl }

  -- On a valid queue, `push` appends the message with its size behind the contents.
  pub contents-push :
      (q : Queue T) (msg : T) (size : ℕ)
      → IsValid q
      → contents (push q msg size) ≡ contents q ++ record { msg = some msg; size = size } ∷ []
  unfolding push
  contents-push q msg size v = drop-append q.head q.entries _ v.in_range

  pub push-IsValid : (q : Queue T) (msg : T) (size : ℕ) → IsValid q → IsValid (push q msg size)
  unfolding push
  push-IsValid q msg size v = record {
    in_range =
        omega (
          arith,
          v.in_range,
          length-append q.entries (record { msg = some msg; size = size } ∷ []),
        );
    charged = omega (
      arith,
      v.charged,
      ap charge (contents-push q msg size v),
      charge-append (contents q) (record { msg = some msg; size = size } ∷ []),
    );
  }

  pub len-contents : (q : Queue T) → len q ≡ length (contents q)
  unfolding len
  len-contents q = sym (length-drop q.head q.entries)

  compacted-contents : (q : Queue T) → contents (compacted q) ≡ contents q
  unfolding compacted
  compacted-contents q = ground (arith, drop-length q.head q.entries)

  compacted-IsValid : (q : Queue T) → IsValid q → IsValid (compacted q)
  compacted-IsValid q v = record {
    in_range = unfold compacted in ground (arith, v.in_range);
    charged = unfold compacted in ground (arith, v.charged, compacted-contents q);
  }

  -- What the slot at `head` and the slots behind it hold.
  front :
      (q : Queue T) (e : Entry T) (es : List (Entry T))
      → contents q ≡ e ∷ es
      → (q.head < length q.entries)
        × (get_or q.entries q.head blank ≡ e)
        × (drop (q.head + 1) q.entries ≡ es)
  front q e es h = ground (arith, in_range, drop-get_or q.head q.entries)
    where
      in_range : q.head < length q.entries
      in_range = omega (arith, ap length h, length-drop q.head q.entries)

  released-contents :
      (q : Queue T) (e : Entry T) → contents (released q e) ≡ drop (q.head + 1) q.entries
  unfolding released
  released-contents q e = rw compacted-contents (drop-set q.head q.entries blank)

  released-IsValid :
      (q : Queue T) (e : Entry T) (es : List (Entry T))
      → IsValid q
      → contents q ≡ e ∷ es
      → IsValid (released q e)
  unfolding released
  released-IsValid q e es v h = compacted-IsValid _ (record {
    in_range = omega (arith, (front q e es h).0, length-set q.entries q.head blank);
    charged =
        ground (arith, front q e es h, drop-set q.head q.entries blank, v.charged, ap charge h);
  })

  -- On a valid queue whose contents start with `e`, `pop` returns the message and the size of `e`, and
  -- the queue that it leaves, rewound or slid as it may be, is valid and holds the rest.
  pub pop_front :
      (q : Queue T) (e : Entry T) (es : List (Entry T))
      → IsValid q
      → contents q ≡ e ∷ es
      → (pop q ≡ ok (released q e, e.msg, e.size))
        × (contents (released q e) ≡ es)
        × IsValid (released q e)
  unfolding pop
  pop_front q e es v h = (
    ground (arith, front q e es h),
    released-contents q e ∙ (front q e es h).2,
    released-IsValid q e es v h,
  )
