-- ===== src/Worker/Opening/Buffers.antt =====
-- Which page cache buffers an sstable is given when its file is opened.
use ringdb.Prelude.{
  ℕ, zero, suc, ◌+◌, ◌-◌, ◌*◌, ◌%◌, ◌^◌, ◌≤◌, ◌<◌, ◌≡◌, refl, sym, ◌∙◌, ap, Bool, some, ◌++◌, [],
  ◌∷◌, length, length-set, set, store_lem, get_elem?, get_elem?-set_self, get_elem?-set_ne, arith,
  add32, dec_lt,
}
use ringdb.Config.{Config, max_sstable_height}
use ringdb.CacheHelper.{add_buffer}
use ringdb.SstableInfo.{SstableInfo}
use ringdb.Memory.{fill}
use ringdb.Worker.{Call, place_of}
use ringdb.Worker.Opening.{Opening, set_buffers, open_file, opening_turn, write_path}

module _ (c : Config) (ringdb_test : Bool) (info_at file_path buffers_at buffer_size : ℕ) where
  abbrev pub buffer_of : ℕ → ℕ → ℕ
  buffer_of sstable_num m = buffers_at + buffer_size * add32 sstable_num m % 2 ^ 32

  record IsGiven (sstable_num from rounds : ℕ) (info info' : SstableInfo) : Type 0 where
    size : length info'.page_cache_buffers ≡ length info.page_cache_buffers
    given :
        (k : ℕ)
        → from ≤ k
        → k < from + rounds
        → get_elem? info'.page_cache_buffers k ≡ some (buffer_of sstable_num k)
    kept :
        (k : ℕ)
        → k < from
        → get_elem? info'.page_cache_buffers k ≡ get_elem? info.page_cache_buffers k
    free :
        info'.cache_helper.free_buffers_left
        ≡ (info.cache_helper.free_buffers_left + rounds) % 2 ^ 32
    offset : info'.desired_sstable_offset ≡ info.desired_sstable_offset
    place : info'.insert_buffers_from ≡ info.insert_buffers_from

  set_buffers-IsGiven :
      (rounds sstable_num : ℕ) (info : SstableInfo) (m : ℕ)
      → m + rounds ≤ length info.page_cache_buffers
      → info.cache_helper.free_buffers_left < 2 ^ 32
      → (info' : SstableInfo) × (set_buffers c ringdb_test info_at file_path buffers_at buffer_size
            rounds sstable_num info m
          ≡ some info')
        × IsGiven sstable_num m rounds info info'
  unfolding set_buffers add_buffer
  set_buffers-IsGiven zero sstable_num info m h w = (
    info,
    refl,
    record {
      size = refl;
      given = λ k g l. absurd (omega arith);
      kept = λ k l. refl;
      free = omega arith;
      offset = refl;
      place = refl;
    },
  )
  set_buffers-IsGiven (suc rounds) sstable_num info m h w =
      let x = buffer_of sstable_num m in
      let one : SstableInfo = record info {
        page_cache_buffers = set info.page_cache_buffers m x;
        cache_helper = add_buffer info.cache_helper;
      } in
      let (info', run, s) =
        set_buffers-IsGiven rounds sstable_num one (m + 1)
          (omega (arith, length-set info.page_cache_buffers m x)) (omega arith) in
      (
        info',
        rw (set_buffers, store_lem info.page_cache_buffers m x (omega arith)) run,
        record {
          size = s.size ∙ length-set info.page_cache_buffers m x;
          given = λ k g l. elim (dec_lt m k) [
            | yes later ↦ s.given k (omega arith) (omega arith)
            | no here ↦
                let e : k ≡ m = omega arith in
                rw e (
                  s.kept m (omega arith)
                  ∙ get_elem?-set_self info.page_cache_buffers m x (omega arith))
          ];
          kept = λ k l.
              s.kept k (omega arith)
              ∙ get_elem?-set_ne info.page_cache_buffers x (λ (e : m ≡ k). omega arith);
          free = omega (arith, s.free);
          offset = s.offset;
          place = s.place;
        },
      )

  -- An sstable whose file is to be opened.
  pub record IsOpened (sstable_num : ℕ) (o' : Opening) : Type 0 where
    pub given :
        (k : ℕ)
        → k < max_sstable_height c
        → get_elem? o'.info.page_cache_buffers k ≡ some (buffer_of sstable_num k)
    pub free : o'.info.cache_helper.free_buffers_left ≡ max_sstable_height c
    pub offset : o'.info.desired_sstable_offset ≡ 0
    pub place : o'.info.insert_buffers_from ≡ max_sstable_height c

  opened_runs :
      (sstable_num : ℕ) (o : Opening) (info : SstableInfo)
      → set_buffers c ringdb_test info_at file_path buffers_at buffer_size
          (max_sstable_height c)
          sstable_num
          (record o.info { desired_sstable_offset = 0; insert_buffers_from = max_sstable_height c })
          0
        ≡ some info
      → (o' : Opening) × (open_file c ringdb_test info_at file_path buffers_at buffer_size
            sstable_num o
          ≡ some o')
        × (o'.info ≡ info)
  unfolding open_file
  opened_runs sstable_num o info r = (
    record {
      memory =
          write_path ringdb_test info_at file_path
            (fill (fill o.memory o.info.min_key c.key_length 255) o.info.max_key c.key_length 0)
            (place_of c sstable_num);
      info = info;
      calls =
          o.calls
          ++ Call.prep_openat file_path ∷ Call.prep_msg_to_scheduler sstable_num ∷ Call.submit ∷ [];
    },
    rw r,
    refl,
  )

  -- An sstable that has no buffer yet, and room for them, is given the fair number of buffers, all of them
  -- free.
  pub open_file-IsOpened :
      (sstable_num : ℕ) (o : Opening)
      → max_sstable_height c ≤ length o.info.page_cache_buffers
      → max_sstable_height c < 2 ^ 32
      → o.info.cache_helper.free_buffers_left ≡ 0
      → (o' : Opening) × (open_file c ringdb_test info_at file_path buffers_at buffer_size
            sstable_num o
          ≡ some o')
        × IsOpened sstable_num o'
  open_file-IsOpened sstable_num o h w none =
      let start : SstableInfo = record o.info {
        desired_sstable_offset = 0;
        insert_buffers_from = max_sstable_height c;
      } in
      let (info, run, s) =
        set_buffers-IsGiven (max_sstable_height c) sstable_num start 0 (omega arith)
          (omega arith) in
      let (o', run', same) = opened_runs sstable_num o info run in
      (
        o',
        run',
        record {
          given = λ k l. rw same (s.given k (omega arith) (omega arith));
          free = rw same (omega (arith, s.free));
          offset = rw same s.offset;
          place = rw same s.place;
        },
      )

  turn_opens :
      (sstable_num : ℕ) (o : Opening)
      → o.info.desired_sstable_offset ≡ 2 ^ 64 - 2
      → opening_turn c ringdb_test info_at file_path buffers_at buffer_size sstable_num o
        ≡ open_file c ringdb_test info_at file_path buffers_at buffer_size sstable_num o
  unfolding opening_turn
  turn_opens sstable_num o mark = ground arith

  turn_rests :
      (sstable_num : ℕ) (o : Opening)
      → o.info.desired_sstable_offset ≡ 0
      → opening_turn c ringdb_test info_at file_path buffers_at buffer_size sstable_num o ≡ some o
  unfolding opening_turn
  turn_rests sstable_num o mark = ground arith

  -- The turn that finds the mark of a file not yet opened opens it, and the next turn leaves it.
  opening_turn-once :
      (sstable_num : ℕ) (o : Opening)
      → o.info.desired_sstable_offset ≡ 2 ^ 64 - 2
      → max_sstable_height c ≤ length o.info.page_cache_buffers
      → max_sstable_height c < 2 ^ 32
      → o.info.cache_helper.free_buffers_left ≡ 0
      → (o' : Opening) × (opening_turn c ringdb_test info_at file_path buffers_at buffer_size
            sstable_num o
          ≡ some o')
        × IsOpened sstable_num o'
        × (opening_turn c ringdb_test info_at file_path buffers_at buffer_size sstable_num o'
            ≡ some o')
  opening_turn-once sstable_num o mark h w z =
      let (o', run, i) = open_file-IsOpened sstable_num o h w z in
      (o', turn_opens sstable_num o mark ∙ run, i, turn_rests sstable_num o' i.offset)

  -- Two sstables with numbers next to one another are given the same buffers but for one each: buffer k + 1
  -- of the first is buffer k of the second.
  pub open_file-shares :
      (sstable_num : ℕ) (o o' : Opening)
      → max_sstable_height c < 2 ^ 32
      → max_sstable_height c ≤ length o.info.page_cache_buffers
      → o.info.cache_helper.free_buffers_left ≡ 0
      → max_sstable_height c ≤ length o'.info.page_cache_buffers
      → o'.info.cache_helper.free_buffers_left ≡ 0
      → (p p' : Opening) × (open_file c ringdb_test info_at file_path buffers_at buffer_size
            sstable_num o
          ≡ some p)
        × (open_file c ringdb_test info_at file_path buffers_at buffer_size (sstable_num + 1) o'
            ≡ some p')
        × IsOpened sstable_num p
        × IsOpened (sstable_num + 1) p'
        × ((k : ℕ)
            → k + 1 < max_sstable_height c
            → get_elem? p.info.page_cache_buffers (k + 1) ≡ get_elem? p'.info.page_cache_buffers k)
  open_file-shares sstable_num o o' w h z h' z' =
      let (p, run, i) = open_file-IsOpened sstable_num o h w z in
      let (p', run', i') = open_file-IsOpened (sstable_num + 1) o' h' w z' in
      (
        p,
        p',
        run,
        run',
        i,
        i',
        λ k l.
            let e : add32 sstable_num (k + 1) ≡ add32 (sstable_num + 1) k = omega arith in
            i.given (k + 1) l
            ∙ ap (λ x. some (buffers_at + buffer_size * x % 2 ^ 32)) e
            ∙ sym (i'.given k (omega arith)),
      )
