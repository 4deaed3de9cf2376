-- ===== src/Memory/User/Copy.antt =====
-- kernel/src/memory/user.rs: the string that is copied from user memory.
use genrt.Prelude.{
  ℕ, zero, suc, ◌+◌, ◌*◌, ◌/◌, ◌≤◌, ◌<◌, ◌≡◌, ◌≢◌, ◌⊎◌, inl, inr, refl, sym, ap, ◌∙◌, subst, Bool,
  Bool-cases, some, Option-cases, List, [], ◌∷◌, ◌++◌, arith, length, length-append, get_elem?,
  Result, ok, err, ltb, leb, ◌==◌, checked_add, checked_add-some,
}
use genrt.Prelude.Running.{Ends, ends, Ends-then, Ends-test}
use genrt.Memory.Types.{page_size, align_down}
use genrt.Memory.User.{
  UserCopyError, read, Machine, Buffer, Chunk, terminated, failed, unfinished, push_byte,
  read_chunk, chunk_len, copy_loop, copy_cstr_from_user,
}
use genrt.Memory.User.Valid.{Accessible, Grants-cases, validate_user_range_unbounded-IsUserRange}

-- The bytes from the pointer on, none of them zero, and not too many.
record Prefix (m : Machine) (ptr max_len : ℕ) (path : List ℕ) : Type 0 where
  short : length path ≤ max_len
  bytes : (i x : ℕ) → get_elem? path i ≡ some x → (x ≡ m.byte_at (ptr + i)) × (x ≢ 0)
  accessible : (a : ℕ) → ptr ≤ a → a < ptr + length path → Accessible m read a

-- The string at the pointer, up to its terminating zero, all of it readable.
pub record IsString (m : Machine) (ptr max_len : ℕ) (path : List ℕ) : Type 0 where
  pub short : length path ≤ max_len
  pub bytes : (i x : ℕ) → get_elem? path i ≡ some x → (x ≡ m.byte_at (ptr + i)) × (x ≢ 0)
  pub ending : m.byte_at (ptr + length path) ≡ 0
  pub accessible : (a : ℕ) → ptr ≤ a → a ≤ ptr + length path → Accessible m read a

get_elem?-append_one :
    (xs : List ℕ) (b i x : ℕ)
    → get_elem? (xs ++ b ∷ []) i ≡ some x
    → (get_elem? xs i ≡ some x) ⊎ ((i ≡ length xs) × (x ≡ b))
get_elem?-append_one [] b zero x h = inr (refl, ground arith)
get_elem?-append_one [] b (suc i) x h = ground arith
get_elem?-append_one (y ∷ ys) b zero x h = inl h
get_elem?-append_one (y ∷ ys) b (suc i) x h = elim (get_elem?-append_one ys b i x h) [
  | inl e ↦ inl e
  | inr (e, f) ↦ inr (ap suc e, f)
]

Prefix-next :
    (m : Machine) (ptr max_len : ℕ) (path : List ℕ)
    → Prefix m ptr max_len path
    → m.byte_at (ptr + length path) ≢ 0
    → length path ≢ max_len
    → Accessible m read (ptr + length path)
    → Prefix m ptr max_len (path ++ m.byte_at (ptr + length path) ∷ [])
Prefix-next m ptr max_len path v nonzero room reach = record {
  short = omega (arith, v.short, length-append path (m.byte_at (ptr + length path) ∷ []));
  bytes = λ i x h. elim (get_elem?-append_one path _ i x h) [
    | inl e ↦ v.bytes i x e
    | inr (e, f) ↦ (f ∙ ap (λ k. m.byte_at (ptr + k)) (sym e), λ z. nonzero (sym f ∙ z))
  ];
  accessible = λ a p q. elim (Bool-cases (ltb a (ptr + length path))) [
    | inl e ↦ v.accessible a p (ground arith)
    | inr e ↦
        subst (Accessible m read)
          (ground (arith, length-append path (m.byte_at (ptr + length path) ∷ []))) reach
  ];
}

-- What reading a chunk leaves: a string, an error, or `left` bytes more.
data ChunkRead (m : Machine) (ptr max_len have left : ℕ) : Chunk → Type 0 where
  ended :
      {path : List ℕ}
      → IsString m ptr max_len path
      → ChunkRead m ptr max_len have left (terminated path)
  broke : (e : UserCopyError) → ChunkRead m ptr max_len have left (failed e)
  went_on :
      {b : Buffer}
      → Prefix m ptr max_len b.path
      → length b.path ≡ have + left
      → ChunkRead m ptr max_len have left (unfinished b)

pub push_byte-some :
    (can_reserve : ℕ → Bool) (max_len : ℕ) (b b' : Buffer) (byte : ℕ)
    → push_byte can_reserve max_len b byte ≡ some b'
    → b'.path ≡ b.path ++ byte ∷ []
unfolding push_byte
push_byte-some can_reserve max_len b b' byte h = ground arith

ChunkRead-shift :
    (m : Machine) (ptr max_len have left : ℕ) (c : Chunk)
    → ChunkRead m ptr max_len (suc have) left c
    → ChunkRead m ptr max_len have (suc left) c
ChunkRead-shift m ptr max_len have left _ (ended s) = ended s
ChunkRead-shift m ptr max_len have left _ (broke e) = broke e
ChunkRead-shift m ptr max_len have left _ (went_on p size) = went_on p (omega arith)

read_chunk-ChunkRead :
    (can_reserve : ℕ → Bool) (m : Machine) (ptr max_len left cursor : ℕ) (b : Buffer)
    → Prefix m ptr max_len b.path
    → cursor ≡ ptr + length b.path
    → ((a : ℕ) → cursor ≤ a → a < cursor + left → Accessible m read a)
    → ChunkRead m ptr max_len (length b.path) left (read_chunk can_reserve m max_len left cursor b)
unfolding read_chunk
read_chunk-ChunkRead can_reserve m ptr max_len zero cursor b v at reach = went_on v (omega arith)
read_chunk-ChunkRead can_reserve m ptr max_len (suc left) cursor b v at reach =
    let here = subst (Accessible m read) at (reach cursor (omega arith) (omega arith)) in
    elim (Bool-cases (m.byte_at cursor == 0)) [
      | inl e ↦ rw e (
          ended (record {
            short = v.short;
            bytes = v.bytes;
            ending = ap m.byte_at (sym at) ∙ ground arith;
            accessible = λ a p q. elim (Bool-cases (ltb a (ptr + length b.path))) [
              | inl w ↦ v.accessible a p (ground arith)
              | inr w ↦ subst (Accessible m read) (ground arith) here
            ];
          }))
      | inr e ↦ elim (Bool-cases (length b.path == max_len)) [
        | inl w ↦ rw (e, w) (broke _)
        | inr w ↦ elim (Option-cases (push_byte can_reserve max_len b (m.byte_at cursor))) [
          | inl z ↦ rw (e, w, z) (broke _)
          | inr (b', z) ↦
              let path' = push_byte-some can_reserve max_len b b' (m.byte_at cursor) z in
              let byte : m.byte_at (ptr + length b.path) ≡ m.byte_at cursor =
                ap m.byte_at (sym at) in
              let v' = Prefix-next m ptr max_len b.path v (λ k. ground arith) (ground arith) here in
              let w' : Prefix m ptr max_len b'.path =
                subst (Prefix m ptr max_len) (ap (λ c. b.path ++ c ∷ []) byte ∙ sym path') v' in
              let size : length b'.path ≡ suc (length b.path) =
                ap length path' ∙ length-append b.path (m.byte_at cursor ∷ []) ∙ omega arith in
              rw (e, w, z)
                (ChunkRead-shift m ptr max_len (length b.path) left _ (
                  subst
                    (λ k.
                      ChunkRead m ptr max_len k left
                        (read_chunk can_reserve m max_len left (cursor + 1) b'))
                    size
                    (read_chunk-ChunkRead can_reserve m ptr max_len left (cursor + 1) b' w'
                      (omega arith) (λ a p q. reach a (omega arith) (omega arith)))))
        ]
      ]
    ]

-- What the copy answers: the string, or an error.
pub data Copied (m : Machine) (ptr max_len : ℕ) : Result (List ℕ) UserCopyError → Type 0 where
  copied : {path : List ℕ} → IsString m ptr max_len path → Copied m ptr max_len (ok path)
  not_copied : (e : UserCopyError) → Copied m ptr max_len (err e)

ChunkRead-cases :
    (m : Machine) (ptr max_len have left : ℕ) (c : Chunk)
    → ChunkRead m ptr max_len have left c
    → ((path : List ℕ) × (c ≡ terminated path) × IsString m ptr max_len path)
      ⊎ ((e : UserCopyError) × (c ≡ failed e))
      ⊎ ((b : Buffer) × (c ≡ unfinished b)
          × Prefix m ptr max_len b.path
          × (length b.path ≡ have + left))
ChunkRead-cases m ptr max_len have left _ (ended s) = inl (_, refl, s)
ChunkRead-cases m ptr max_len have left _ (broke e) = inr (inl (e, refl))
ChunkRead-cases m ptr max_len have left _ (went_on p size) = inr (inr (_, refl, p, size))

pub next_page :
    (cursor page_end max_len scanned : ℕ)
    → checked_add (align_down cursor page_size) page_size ≡ some page_end
    → scanned ≤ max_len
    → 0 < chunk_len page_end cursor max_len scanned
unfolding align_down
next_page cursor page_end max_len scanned h le =
    let (at, small) = checked_add-some (cursor / page_size * page_size) page_size h in omega arith

pub Copied-cases :
    (m : Machine) (ptr max_len : ℕ) (r : Result (List ℕ) UserCopyError)
    → Copied m ptr max_len r
    → ((path : List ℕ) × (r ≡ ok path) × IsString m ptr max_len path)
      ⊎ ((e : UserCopyError) × (r ≡ err e))
Copied-cases m ptr max_len _ (copied s) = inl (_, refl, s)
Copied-cases m ptr max_len _ (not_copied e) = inr (e, refl)

copy_loop-Copied :
    (fuel : ℕ) (can_reserve : ℕ → Bool) (m : Machine) (ptr max_len cursor scanned : ℕ) (b : Buffer)
    → max_len + 2 ≤ scanned + fuel
    → Prefix m ptr max_len b.path
    → scanned ≡ length b.path
    → cursor ≡ ptr + length b.path
    → Ends (Copied m ptr max_len) (copy_loop fuel can_reserve m max_len cursor scanned b)
unfolding copy_loop
copy_loop-Copied zero can_reserve m ptr max_len cursor scanned b enough v have at =
    absurd (omega (arith, v.short))
copy_loop-Copied (suc fuel) can_reserve m ptr max_len cursor scanned b enough v have at =
    Ends-test (leb scanned max_len)
      (λ e. elim (Option-cases (checked_add (align_down cursor page_size) page_size)) [
        | inl w ↦ rw w (ends (not_copied _))
        | inr (page_end, w) ↦
            let len : ℕ = chunk_len page_end cursor max_len scanned in
            let some_bytes : 0 < len = next_page cursor page_end max_len scanned w (ground arith) in
            rw w (
              Ends-then (validate_user_range_unbounded-IsUserRange m cursor len read) λ c g.
                elim (Grants-cases g) [
                  | inr (e', z) ↦ rw z (ends (not_copied _))
                  | inl (z, u) ↦
                      let bytes =
                        read_chunk-ChunkRead can_reserve m ptr max_len len cursor b v at
                          u.accessible in
                      elim (ChunkRead-cases m ptr max_len (length b.path) len _ bytes) [
                        | inl (path, y, s) ↦ rw (z, y) (ends (copied s))
                        | inr (inl (e', y)) ↦ rw (z, y) (ends (not_copied _))
                        | inr (inr (b', y, v', size)) ↦
                            elim (Option-cases (checked_add cursor len)) [
                              | inl x ↦ rw (z, y, x) (ends (not_copied _))
                              | inr (cursor', x) ↦
                                  let (at', fits) = checked_add-some cursor len x in
                                  rw (z, y, x)
                                    (copy_loop-Copied fuel can_reserve m ptr max_len cursor'
                                      (scanned + len) b' (omega arith) v' (omega arith)
                                      (omega arith))
                            ]
                      ]
                ])
      ])
      (λ e. ends (not_copied _))

-- The copy ends, and a string that it answers is the one at the pointer: at most `max_len` bytes, each
-- the byte of user memory in its place and none of them zero, before a zero byte, all of them and the
-- zero readable by the user.
pub copy_cstr_from_user-IsString :
    (can_reserve : ℕ → Bool) (m : Machine) (ptr max_len : ℕ)
    → Ends (Copied m ptr max_len) (copy_cstr_from_user can_reserve m ptr max_len)
unfolding copy_cstr_from_user
copy_cstr_from_user-IsString can_reserve m ptr max_len =
    copy_loop-Copied (max_len + 2) can_reserve m ptr max_len ptr 0
      (record { path = []; capacity = 0 }) (omega arith)
      (record {
        short = omega arith;
        bytes = λ i x h. ground arith;
        accessible = λ a p q. absurd (omega arith);
      })
      refl (omega arith)
