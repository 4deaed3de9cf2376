-- ===== src/Sched/Ids.antt =====
-- The generation-bearing identities of kernel/src/sched/mod.rs, kernel/src/cpu.rs and
-- kernel/src/sched/wait.rs.
use genrt.Prelude.{ℕ, ◌≡◌, ◌↔◌, Bool, true, ◌&&◌, ◌==◌, arith}

-- `CpuId(usize)`.
abbrev pub CpuId : Type 0
CpuId = ℕ

pub record ThreadId : Type 0 where
  pub index : ℕ
  pub generation : ℕ

-- `WaitSequence(u64)` is the number `sequence`.
pub record WaitToken : Type 0 where
  pub thread : ThreadId
  pub cpu : CpuId
  pub sequence : ℕ

-- The derived `PartialEq` of the two identities.
unfoldable pub thread_eq : ThreadId → ThreadId → Bool
thread_eq a b = a.index == b.index && a.generation == b.generation

unfoldable pub token_eq : WaitToken → WaitToken → Bool
unfolding thread_eq
token_eq a b = thread_eq a.thread b.thread && (a.cpu == b.cpu && a.sequence == b.sequence)

pub thread_eq_iff : (a b : ThreadId) → (thread_eq a b ≡ true) ↔ (a ≡ b)
unfolding thread_eq
thread_eq_iff a b = (λ h. ground arith, λ h. ground arith)

pub token_eq_iff : (a b : WaitToken) → (token_eq a b ≡ true) ↔ (a ≡ b)
unfolding token_eq
token_eq_iff a b = (λ h. ground arith, λ h. ground arith)
