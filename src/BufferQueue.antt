-- ===== src/BufferQueue.antt =====
-- level_info/buffer_queue/buffer_queue.hpp: the ring of page cache buffers that levels hand on.
pub mod Fifo
mod Tests
use ringdb.Prelude.{ℕ, ◌+◌, ◌%◌, ◌≡◌, Option, some, List, ◌>>=◌, get_elem?, store, add32, sub32}

-- Buffers are addresses. The guard is a component of its own, Guards.
pub record BufferQueue : Type 0 where
  pub queue_front : ℕ
  pub back : ℕ
  pub cur_num_buffers : ℕ
  pub num_new_buffers : ℕ
  pub queue : List ℕ

-- A new queue over an array that is not set: `cells` are its contents.
pub init : ℕ → List ℕ → BufferQueue
init start_num_buffers cells = record {
  queue_front = 0;
  back = 0;
  cur_num_buffers = start_num_buffers;
  num_new_buffers = 0;
  queue = cells;
}

pub front : BufferQueue → Option ℕ
front q = get_elem? q.queue q.queue_front

-- `size` is the template argument `length`.
module _ (size : ℕ) where
  unfoldable pub push_back : BufferQueue → ℕ → Option BufferQueue
  push_back q buffer = do
    let back' = add32 q.back 1 % size
    cells ← store q.queue back' buffer
    some (record q {
      back = back';
      cur_num_buffers = add32 q.cur_num_buffers 1;
      num_new_buffers = add32 q.num_new_buffers 1;
      queue = cells;
    })

  unfoldable pub pop_front : BufferQueue → Option (ℕ × BufferQueue)
  pop_front q = do
    front_buffer ← get_elem? q.queue q.queue_front
    some (
      front_buffer,
      record q {
        queue_front = add32 q.queue_front 1 % size;
        cur_num_buffers = sub32 q.cur_num_buffers 1;
        num_new_buffers = sub32 q.num_new_buffers 1;
      },
    )
