-- ===== src/Pmm/Trace.antt =====
-- Any sequence of calls: who owns which page, and that no page has two owners.
use terracotta_os.Prelude.{
  ℕ, ◌+◌, ◌*◌, ◌<◌, ◌≡◌, ◌⊎◌, inl, inr, Bool, true, false, ◌==◌, if◌then◌else◌, Bool-cases, arith,
}
use terracotta_os.Memory.{null}
use terracotta_os.Pmm.{State, bit_count, is_free, palloc, kfree}
use terracotta_os.Pmm.Bitmap.{IsValid}
use terracotta_os.Pmm.Alloc.{palloc-IsValid, IsFull, Takes, palloc_lem}
use terracotta_os.Pmm.Free.{
  IsApart, IsManaged, IsApart-file, bit_count-file, kfree_lem, kfree-IsValid,
}

-- The manager with the pages that its clients hold.
pub record System : Type 0 where
  pub state : State
  pub owned : ℕ → Bool

abbrev pub grant : System → ℕ → State → System
grant t k s = record { state = s; owned = λ j. if k == j then true else t.owned j }

abbrev pub give_back : System → ℕ → State → System
give_back t k s = record { state = s; owned = λ j. if k == j then false else t.owned j }

-- A client is given a page by `palloc`, fails to get one, or frees a page that it owns.
pub data Step (t : System) : System → Type 0 where
  granted :
      (k : ℕ)
      → Takes t.state (palloc t.state).0 (palloc t.state).1 k
      → Step t (grant t k (palloc t.state).1)
  denied : palloc t.state ≡ (null, t.state) → Step t t
  freed :
      (k : ℕ)
      → t.owned k ≡ true
      → IsManaged t.state k
      → Step t (give_back t k (kfree t.state (t.state.file.base + k * 4096)))

pub data Reach (t : System) : System → Type 0 where
  here : Reach t t
  next : {u w : System} → Reach t u → Step u w → Reach t w

pub record IsSound (t : System) : Type 0 where
  pub valid : IsValid t.state
  pub apart : IsApart t.state
  pub marked : (k : ℕ) → k < bit_count t.state → t.owned k ≡ true → is_free t.state k ≡ false

Step-IsSound : {t u : System} → Step t u → IsSound t → IsSound u
Step-IsSound {t} (granted k takes) h = record {
  valid = palloc-IsValid t.state h.valid;
  apart = IsApart-file takes.file_kept h.apart;
  marked = λ j lt own.
      let same = bit_count-file t.state (palloc t.state).1 takes.file_kept in
      ground (arith, takes.marks j, h.marked j);
}
Step-IsSound (denied e) h = h
Step-IsSound {t} (freed k own managed) h =
    let (marks, cleared, file) = kfree_lem t.state k h.valid h.apart managed in
    record {
      valid = kfree-IsValid t.state (t.state.file.base + k * 4096) h.valid;
      apart = IsApart-file file h.apart;
      marked = λ j lt own'.
          let same = bit_count-file t.state (kfree t.state (t.state.file.base + k * 4096)) file in
          ground (arith, marks j, h.marked j);
    }

pub Reach-IsSound : {t u : System} → IsSound t → Reach t u → IsSound u
Reach-IsSound h here = h
Reach-IsSound h (next r st) = Step-IsSound st (Reach-IsSound h r)

-- From a sound start, after any sequence of allocations and of frees of owned managed pages,
-- either every page is used, or `palloc` hands out the lowest free page, which nobody owns at that
-- moment.
pub palloc-fresh :
    {t u : System}
    → IsSound t
    → Reach t u
    → IsFull u.state
      ⊎ ((k : ℕ) × Takes u.state (palloc u.state).0 (palloc u.state).1 k × (u.owned k ≡ false))
palloc-fresh {u} h r =
    let sound = Reach-IsSound h r in
    elim (palloc_lem u.state sound.valid) [
      | inl (full, e) ↦ inl full
      | inr (k, takes, ne) ↦
          let low = takes.lowest in
          inr (
            k,
            takes,
            elim (Bool-cases (u.owned k)) [
              | inl own ↦ cc (sound.marked k low.0 own, low.1)
              | inr free ↦ free
            ],
          )
    ]
