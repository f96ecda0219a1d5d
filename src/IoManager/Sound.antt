-- ===== src/IoManager/Sound.antt =====
-- The states of tw/iomanager.cc in which contexts, the count of pending events and the interest of
-- the kernel agree.
use tw_server.Base.{
  ℕ, zero, suc, ◌+◌, ◌≡◌, refl, ap, Bool, true, false, List, [], ◌∷◌, ◌++◌, Option, none, some,
  if◌then◌else◌, ◌==◌, get_elem?, set, subst, replicate, All, of_some, suc-==-suc, suc-==-zero,
  zero-==-suc, arith,
}
use tw_server.Fiber.{has}
use tw_server.IoManager.{
  Mask, no_events, EventContext, no_context, FdContext, new_context, Ctl, IoManager,
}

abbrev pub differ : Bool → Bool → Bool
differ true b = if b then false else true
differ false b = b

-- An event that waits has a scheduler and one waiter, a fiber or a callback; one that does not has
-- nothing.
abbrev pub IsTidySide : Bool → EventContext → Type 0
IsTidySide false e = e ≡ no_context
IsTidySide true e = (e.home ≡ some 0) × (differ (has e.fiber) (has e.cb) ≡ true)

abbrev pub IsTidy : FdContext → Type 0
IsTidy c = IsTidySide c.events.reads c.read × IsTidySide c.events.writes c.write

abbrev pub bit : Bool → ℕ
bit true = 1
bit false = 0

abbrev pub mask_count : Mask → ℕ
mask_count m = bit m.reads + bit m.writes

abbrev pub waiting_count : List FdContext → ℕ
waiting_count [] = 0
waiting_count (c ∷ l) = mask_count c.events + waiting_count l

-- The events that the kernel was last told to watch.
abbrev pub interest : List Ctl → ℕ → Mask
interest [] fd = no_events
interest (x ∷ l) fd = if fd == x.fd then x.mask else interest l fd

abbrev pub mask_of : Option FdContext → Mask
mask_of none = no_events
mask_of (some c) = c.events

pub record IsSound (io : IoManager) : Type 0 where
  pub tidy : All IsTidy io.contexts
  pub counted : io.pending ≡ waiting_count io.contexts
  pub told : (fd : ℕ) → interest io.calls fd ≡ mask_of (get_elem? io.contexts fd)

pub All-get_elem? {ℓ κ} :
    {A : Type ℓ} (P : A → Type κ) (l : List A) (i : ℕ) (a : A)
    → All P l
    → get_elem? l i ≡ some a
    → P a
All-get_elem? P [] i a h g = cc
All-get_elem? P (x ∷ l) zero a h g = subst P (of_some g) h.0
All-get_elem? P (x ∷ l) (suc i) a h g = All-get_elem? P l i a h.1 g

pub All-set {ℓ κ} :
    {A : Type ℓ} (P : A → Type κ) (l : List A) (i : ℕ) (b : A) → All P l → P b → All P (set l i b)
All-set P [] i b h k = h
All-set P (x ∷ l) zero b h k = (k, h.1)
All-set P (x ∷ l) (suc i) b h k = (h.0, All-set P l i b h.1 k)

pub waiting_count-set :
    (l : List FdContext) (i : ℕ) (a b : FdContext)
    → get_elem? l i ≡ some a
    → waiting_count (set l i b) + mask_count a.events ≡ waiting_count l + mask_count b.events
waiting_count-set [] i a b g = cc
waiting_count-set (x ∷ l) zero a b g = omega (arith, ap (λ c. mask_count c.events) (of_some g))
waiting_count-set (x ∷ l) (suc i) a b g = omega (arith, waiting_count-set l i a b g)

pub mask_of-set :
    (l : List FdContext) (i j : ℕ) (a b : FdContext)
    → get_elem? l i ≡ some a
    → mask_of (get_elem? (set l i b) j) ≡ (if j == i then b.events else mask_of (get_elem? l j))
mask_of-set [] i j a b g = cc
mask_of-set (x ∷ l) zero zero a b g = refl
mask_of-set (x ∷ l) zero (suc j) a b g = rw (suc-==-zero j) refl
mask_of-set (x ∷ l) (suc i) zero a b g = rw (zero-==-suc i) refl
mask_of-set (x ∷ l) (suc i) (suc j) a b g = rw (suc-==-suc j i) (mask_of-set l i j a b g)

pub fresh-IsTidy : (n : ℕ) → All IsTidy (replicate n new_context)
unfolding new_context
fresh-IsTidy zero = tt
fresh-IsTidy (suc n) = ((refl, refl), fresh-IsTidy n)

pub waiting_count-fresh :
    (l : List FdContext) (n : ℕ) → waiting_count (l ++ replicate n new_context) ≡ waiting_count l
unfolding new_context
waiting_count-fresh [] zero = refl
waiting_count-fresh [] (suc n) = omega (arith, waiting_count-fresh [] n)
waiting_count-fresh (x ∷ l) n = omega (arith, waiting_count-fresh l n)

pub mask_of-fresh :
    (l : List FdContext) (n j : ℕ)
    → mask_of (get_elem? (l ++ replicate n new_context) j) ≡ mask_of (get_elem? l j)
unfolding new_context
mask_of-fresh [] zero j = refl
mask_of-fresh [] (suc n) zero = refl
mask_of-fresh [] (suc n) (suc j) = mask_of-fresh [] n j
mask_of-fresh (x ∷ l) n zero = refl
mask_of-fresh (x ∷ l) n (suc j) = mask_of-fresh l n j
