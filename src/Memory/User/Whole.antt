-- ===== src/Memory/User/Whole.antt =====
-- kernel/src/memory/user.rs: a readable string that is not too long is copied whole.
use genrt.Prelude.{
  ℕ, zero, suc, ◌+◌, ◌-◌, ◌*◌, ◌/◌, ◌≤◌, ◌<◌, ◌≡◌, ◌⊎◌, inl, inr, min, refl, sym, ap, ◌∙◌, subst,
  Bool, true, false, ◌||◌, Bool-cases, some, Option-cases, List, [], ◌∷◌, ◌++◌, arith, length,
  length-append, get_elem?, Result, ok, ltb, leb, ◌==◌, usize_max, checked_add,
}
use genrt.Prelude.Running.{done, Ends, ends, Ends-then, Ends-test, Ends-done, Ends-value}
use genrt.Memory.Types.{page_size, align_down}
use genrt.Memory.User.{
  UserCopyError, read, Machine, user_text_base, user_stack_top, accepted, Buffer, Chunk, terminated,
  unfinished, check_pages, push_byte, read_chunk, chunk_len, copy_loop, copy_cstr_from_user,
  validate_user_range_unbounded,
}
use genrt.Memory.User.Copy.{
  IsString, Copied-cases, next_page, push_byte-some, copy_cstr_from_user-IsString,
}

-- A string of `n` bytes that can be read, with room for it.
pub record IsReadable (can_reserve : ℕ → Bool) (m : Machine) (ptr n : ℕ) : Type 0 where
  pub above_text : user_text_base ≤ ptr
  pub below_top : ptr + n < user_stack_top
  pub probes : (a : ℕ) → ptr ≤ a → a ≤ ptr + n → m.current_user_page_readable a ≡ true
  pub nonzero : (i : ℕ) → i < n → m.byte_at (ptr + i) == 0 ≡ false
  pub ending : m.byte_at (ptr + n) ≡ 0
  pub room : (k : ℕ) → can_reserve k ≡ true

push_byte-room :
    (can_reserve : ℕ → Bool) (max_len : ℕ) (b : Buffer) (byte : ℕ)
    → ((k : ℕ) → can_reserve k ≡ true)
    → (b' : Buffer) × (push_byte can_reserve max_len b byte ≡ some b')
unfolding push_byte
push_byte-room can_reserve max_len b byte room = elim (Bool-cases (length b.path == b.capacity)) [
  | inl e ↦ (
    record {
      path = b.path ++ byte ∷ [];
      capacity = length b.path + min (max_len - length b.path) 64;
    },
    rw (e, room (min (max_len - length b.path) 64)) refl,
  )
  | inr e ↦ (record b { path = b.path ++ byte ∷ [] }, rw e refl)
]

-- The chunk ends the string, or is read to its end and the string goes on.
data Reads (n have left : ℕ) : Chunk → Type 0 where
  stops : {path : List ℕ} → Reads n have left (terminated path)
  goes_on :
      {b : Buffer}
      → length b.path ≡ have + left
      → have + left ≤ n
      → Reads n have left (unfinished b)

Reads-shift : (n have left : ℕ) (c : Chunk) → Reads n (suc have) left c → Reads n have (suc left) c
Reads-shift n have left _ stops = stops
Reads-shift n have left _ (goes_on size more) = goes_on (omega arith) (omega arith)

Reads-cases :
    (n have left : ℕ) (c : Chunk)
    → Reads n have left c
    → ((path : List ℕ) × (c ≡ terminated path))
      ⊎ ((b : Buffer) × (c ≡ unfinished b) × (length b.path ≡ have + left) × (have + left ≤ n))
Reads-cases n have left _ stops = inl (_, refl)
Reads-cases n have left _ (goes_on size more) = inr (_, refl, size, more)

read_chunk-Reads :
    (can_reserve : ℕ → Bool) (m : Machine) (ptr n max_len left cursor : ℕ) (b : Buffer)
    → IsReadable can_reserve m ptr n
    → n ≤ max_len
    → length b.path ≤ n
    → cursor ≡ ptr + length b.path
    → Reads n (length b.path) left (read_chunk can_reserve m max_len left cursor b)
unfolding read_chunk
read_chunk-Reads can_reserve m ptr n max_len zero cursor b v fits le at =
    goes_on (omega arith) (omega arith)
read_chunk-Reads can_reserve m ptr n max_len (suc left) cursor b v fits le at =
    elim (Bool-cases (m.byte_at cursor == 0)) [
      | inl e ↦ rw e stops
      | inr e ↦
          let more : length b.path < n = elim (Bool-cases (length b.path == n)) [
            | inl w ↦
                let last : m.byte_at cursor ≡ 0 =
                  ap m.byte_at (at ∙ ap (λ k. ptr + k) (ground arith)) ∙ v.ending in
                absurd (ground arith)
            | inr w ↦ ground arith
          ] in
          let below : length b.path == max_len ≡ false = ground arith in
          let (b', z) = push_byte-room can_reserve max_len b (m.byte_at cursor) v.room in
          let size : length b'.path ≡ suc (length b.path) =
            ap length (push_byte-some can_reserve max_len b b' (m.byte_at cursor) z)
            ∙ length-append b.path (m.byte_at cursor ∷ [])
            ∙ omega arith in
          rw (e, below, z)
            (Reads-shift n (length b.path) left _ (
              subst (λ k. Reads n k left (read_chunk can_reserve m max_len left (cursor + 1) b'))
                size
                (read_chunk-Reads can_reserve m ptr n max_len left (cursor + 1) b' v fits
                  (omega arith) (omega arith))))
    ]

-- The bytes of a chunk lie on one page of user space.
chunk_accepted :
    (m : Machine) (cursor page_end max_len scanned : ℕ)
    → checked_add (align_down cursor page_size) page_size ≡ some page_end
    → scanned ≤ max_len
    → user_text_base ≤ cursor
    → cursor < user_stack_top
    → m.current_user_page_readable cursor ≡ true
    → validate_user_range_unbounded m cursor (chunk_len page_end cursor max_len scanned) read
      ≡ done accepted
unfolding validate_user_range_unbounded check_pages checked_add align_down
chunk_accepted m cursor page_end max_len scanned h le low high probe =
    let end = cursor + chunk_len page_end cursor max_len scanned in
    let page : page_end ≡ cursor / page_size * page_size + page_size = ground arith in
    let small : leb end usize_max ≡ true = ground arith in
    let some_bytes : chunk_len page_end cursor max_len scanned == 0 ≡ false = ground arith in
    let inside : (ltb cursor user_text_base || ltb user_stack_top end || leb end cursor) ≡ false =
      ground arith in
    let same : (cursor / page_size * page_size == (end - 1) / page_size * page_size) ≡ true =
      ground arith in
    rw (some_bytes, small, inside, same, probe) refl

page_fits :
    (cursor : ℕ)
    → cursor < user_stack_top
    → (page_end : ℕ) × (checked_add (align_down cursor page_size) page_size ≡ some page_end)
unfolding checked_add align_down
page_fits cursor h =
    let small : leb (cursor / page_size * page_size + page_size) usize_max ≡ true = ground arith in
    (cursor / page_size * page_size + page_size, rw small refl)

sum_fits : (a b : ℕ) → a + b < user_stack_top → checked_add a b ≡ some (a + b)
unfolding checked_add
sum_fits a b h = let small : leb (a + b) usize_max ≡ true = ground arith in rw small refl

get_elem?-inside : (xs : List ℕ) (i : ℕ) → i < length xs → (x : ℕ) × (get_elem? xs i ≡ some x)
get_elem?-inside [] i h = absurd (omega arith)
get_elem?-inside (x ∷ xs) zero h = (x, refl)
get_elem?-inside (x ∷ xs) (suc i) h = get_elem?-inside xs i (omega arith)

-- The copy answered with a string.
data Answers : Result (List ℕ) UserCopyError → Type 0 where
  answers : (path : List ℕ) → Answers (ok path)

copy_loop-Answers :
    (fuel : ℕ) (can_reserve : ℕ → Bool) (m : Machine) (ptr n max_len cursor scanned : ℕ)
    (b : Buffer)
    → max_len + 2 ≤ scanned + fuel
    → IsReadable can_reserve m ptr n
    → n ≤ max_len
    → length b.path ≤ n
    → scanned ≡ length b.path
    → cursor ≡ ptr + length b.path
    → Ends Answers (copy_loop fuel can_reserve m max_len cursor scanned b)
unfolding copy_loop
copy_loop-Answers zero can_reserve m ptr n max_len cursor scanned b enough v fits le have at =
    absurd (omega arith)
copy_loop-Answers (suc fuel) can_reserve m ptr n max_len cursor scanned b enough v fits le have at =
    Ends-test (leb scanned max_len)
      (λ e. elim (Option-cases (checked_add (align_down cursor page_size) page_size)) [
        | inl w ↦
            let (page_end, w') = page_fits cursor (omega (arith, v.below_top)) in
            absurd (ground arith)
        | inr (page_end, w) ↦
            let len : ℕ = chunk_len page_end cursor max_len scanned in
            let some_bytes : 0 < len = next_page cursor page_end max_len scanned w (ground arith) in
            let probe = v.probes cursor (omega arith) (omega arith) in
            let z =
              chunk_accepted m cursor page_end max_len scanned w (ground arith)
                (omega (arith, v.above_text)) (omega (arith, v.below_top)) probe in
            let reads = read_chunk-Reads can_reserve m ptr n max_len len cursor b v fits le at in
            rw w (
              Ends-then (subst (Ends (λ c. c ≡ accepted)) (sym z) (ends refl)) λ c z'.
                elim (Reads-cases n (length b.path) len _ reads) [
                  | inl (path, y) ↦ rw (z', y) (ends (answers path))
                  | inr (b', y, size, more) ↦
                      let x : checked_add cursor len ≡ some (cursor + len) =
                        sum_fits cursor len (omega (arith, v.below_top)) in
                      rw (z', y, x)
                        (copy_loop-Answers fuel can_reserve m ptr n max_len (cursor + len)
                          (scanned + len) b' (omega arith) v fits (omega arith) (omega arith)
                          (omega arith))
                ])
      ])
      (λ e. absurd (ground arith))

Answers-cases : (r : Result (List ℕ) UserCopyError) → Answers r → (path : List ℕ) × (r ≡ ok path)
Answers-cases _ (answers path) = (path, refl)

-- A string is as long as the bytes before the first zero.
IsString-length :
    (can_reserve : ℕ → Bool) (m : Machine) (ptr n max_len : ℕ) (path : List ℕ)
    → IsReadable can_reserve m ptr n
    → IsString m ptr max_len path
    → length path ≡ n
IsString-length can_reserve m ptr n max_len path v s = elim (Bool-cases (ltb (length path) n)) [
  | inl e ↦
      let more = v.nonzero (length path) (ground arith) in
      let zero_there = s.ending in absurd (ground arith)
  | inr e ↦ elim (Bool-cases (ltb n (length path))) [
    | inl w ↦
        let (x, at) = get_elem?-inside path n (ground arith) in
        let (same, nonzero) = s.bytes n x at in absurd (nonzero (same ∙ v.ending))
    | inr w ↦ ground arith
  ]
]

-- A string of at most `max_len` bytes in user space, whose pages the probe can read and for which
-- there is room, is copied: the answer is that string, up to its first zero byte and no further.
pub copy_cstr_from_user-whole :
    (can_reserve : ℕ → Bool) (m : Machine) (ptr n max_len : ℕ)
    → IsReadable can_reserve m ptr n
    → n ≤ max_len
    → (path : List ℕ) × (copy_cstr_from_user can_reserve m ptr max_len ≡ done (ok path))
      × (length path ≡ n)
      × IsString m ptr max_len path
unfolding copy_cstr_from_user
copy_cstr_from_user-whole can_reserve m ptr n max_len v fits =
    let run =
      copy_loop-Answers (max_len + 2) can_reserve m ptr n max_len ptr 0
        (record { path = []; capacity = 0 }) (omega arith) v fits (omega arith) refl
        (omega arith) in
    let (r, ran, some_answer) = Ends-done run in
    let (path, same) = Answers-cases r some_answer in
    let whole = ran ∙ ap done same in
    elim (Copied-cases m ptr max_len r
      (Ends-value (copy_cstr_from_user-IsString can_reserve m ptr max_len) ran)) [
        | inl (path', same', s) ↦
            (path', ran ∙ ap done same', IsString-length can_reserve m ptr n max_len path' v s, s)
        | inr (e, failed_there) ↦ absurd (ground arith)
      ]
