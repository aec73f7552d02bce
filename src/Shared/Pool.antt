-- ===== src/Shared/Pool.antt =====
-- shared/util/pool.hpp: the blocks of a pool and its list of free ones. A block is known by its index, and a pointer
-- that can be null is an option. Each call is whole: the loops of compare_exchange_weak end in their first round.
pub mod Leases
pub mod Reachable
mod Tests
use ultra_display_os.Prelude.{ℕ, zero, suc, ◌+◌, ltb, ◌==◌, if◌then◌else◌, Option, none, some}

-- `next` is the field of the nodes in the memory.
pub record Pool : Type 0 where
  pub capacity : ℕ
  pub next : ℕ → Option ℕ
  pub head : Option ℕ

-- A store into the field of one node.
pub store : (ℕ → Option ℕ) → ℕ → Option ℕ → ℕ → Option ℕ
store next node value i = if i == node then value else next i

-- The constructor, once the memory is allocated: the loop links each node but the last to the one after it. With
-- capacity 0 the bound of the loop wraps, and nodes are written out of bounds: `none`.
pub create : ℕ → Option Pool
create zero = none
create (suc n) =
    some (record {
      capacity = suc n;
      next = λ i. if ltb i n then some (i + 1) else none;
      head = some 0;
    })

-- The new object lies over the node: `content` is what is then read for `next`.
pub take_head : Pool → Option ℕ → Option ℕ → Option ℕ × Pool
unfolding store
take_head t none content = (none, t)
take_head t (some node) content =
    (some node, record t { next = store t.next node content; head = t.next node })

pub alloc : Pool → Option ℕ → Option ℕ × Pool
unfolding take_head
alloc t content = take_head t t.head content

pub free : Pool → Option ℕ → Pool
unfolding store
free t none = t
free t (some node) = record t { next = store t.next node t.head; head = some node }
