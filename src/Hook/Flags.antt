-- ===== src/Hook/Flags.antt =====
-- tw/hook.cc: fcntl. The user's O_NONBLOCK is kept apart from the one that the kernel has.
use tw_server.Base.{ℕ, ◌≡◌, refl, ap, ◌∙◌, Bool, true, not, ◌||◌, Option, none, some, if◌then◌else◌}
use tw_server.FdManager.{FdCtx}

-- The flags of F_SETFL and F_GETFL: O_NONBLOCK and the others.
pub record FileFlags : Type 0 where
  pub non_block : Bool
  pub others : ℕ

-- The commands of fcntl, by the branch that they take.
pub data Fcntl : Type 0 where
  set_fl : FileFlags → Fcntl
  get_fl : Fcntl
  int_command : ℕ → ℕ → Fcntl
  plain_command : ℕ → Fcntl
  lock_command : ℕ → ℕ → Fcntl
  owner_command : ℕ → ℕ → Fcntl
  default_command : ℕ → Fcntl

-- What fcntl gives: a number, flags, or `-1 & ~O_NONBLOCK`; `none` is -1.
pub data Given : Type 0 where
  number : ℕ → Given
  file_flags : FileFlags → Given
  minus_one_but_non_block : Given

-- The descriptor is a socket that is not closed.
abbrev pub is_open_socket : FdCtx → Bool
is_open_socket x = not (x.is_closed || not x.is_socket)

abbrev pub with_non_block : Bool → FileFlags → FileFlags
with_non_block b f = record f { non_block = b }

-- What comes back for F_GETFL on an open socket.
abbrev pub user_view : FdCtx → Option Given → Option Given
user_view x none = if x.usr_non_block then none else some minus_one_but_non_block
user_view x (some (file_flags f)) = some (file_flags (with_non_block x.usr_non_block f))
user_view x (some g) = some g

-- The answers of the wrapped function for the descriptor.
abbrev pub Answers : Type 0
Answers = Fcntl → Option Given

-- What the table holds after `fcntl`, what the wrapped function is asked, and what is returned.
pub record Reply : Type 0 where
  pub ctx : Option FdCtx
  pub asked : Fcntl
  pub result : Option Given

abbrev pub pass_on : Answers → Fcntl → Option FdCtx → Reply
pass_on k c ctx = record { ctx = ctx; asked = c; result = k c }

-- The result of the wrapped function is dropped.
abbrev pub drop_result : Fcntl → Option FdCtx → Reply
drop_result c ctx = record { ctx = ctx; asked = c; result = none }

abbrev pub set_flags : Answers → FileFlags → FdCtx → Reply
set_flags k f x =
    let c : Fcntl = set_fl (with_non_block x.sys_non_block f) in
    record { ctx = some (record x { usr_non_block = f.non_block }); asked = c; result = k c }

-- `fcntl(fd, cmd, arg)` with what the table holds for the descriptor.
unfoldable pub fcntl : Answers → Fcntl → Option FdCtx → Reply
fcntl k (set_fl f) none = pass_on k (set_fl f) none
fcntl k (set_fl f) (some x) =
    if not (is_open_socket x) then pass_on k (set_fl f) (some x) else set_flags k f x
fcntl k get_fl none = pass_on k get_fl none
fcntl k get_fl (some x) =
    if not (is_open_socket x)
    then pass_on k get_fl (some x)
    else record { ctx = some x; asked = get_fl; result = user_view x (k get_fl) }
fcntl k (int_command n a) ctx = drop_result (int_command n a) ctx
fcntl k (plain_command n) ctx = drop_result (plain_command n) ctx
fcntl k (lock_command n a) ctx = drop_result (lock_command n a) ctx
fcntl k (owner_command n a) ctx = pass_on k (owner_command n a) ctx
fcntl k (default_command n) ctx = pass_on k (default_command n) ctx

get_fl_lem :
    (k : Answers) (x : FdCtx)
    → is_open_socket x ≡ true
    → (fcntl k get_fl (some x)).result ≡ user_view x (k get_fl)
unfolding fcntl
get_fl_lem k x o = rw o refl

set_fl_lem :
    (k : Answers) (f : FileFlags) (x : FdCtx)
    → is_open_socket x ≡ true
    → fcntl k (set_fl f) (some x) ≡ set_flags k f x
unfolding fcntl
set_fl_lem k f x o = rw o refl

-- On an open socket, the O_NONBLOCK that a user sets is the one that a later F_GETFL gives, with
-- the kernel's other flags, and what the kernel is asked to set has the server's own O_NONBLOCK.
fcntl-fcntl :
    (k : Answers) (f g : FileFlags) (x : FdCtx)
    → is_open_socket x ≡ true
    → k get_fl ≡ some (file_flags g)
    → ((fcntl k get_fl (fcntl k (set_fl f) (some x)).ctx).result
        ≡ some (file_flags (with_non_block f.non_block g)))
      × ((fcntl k (set_fl f) (some x)).asked ≡ set_fl (with_non_block x.sys_non_block f))
fcntl-fcntl k f g x o a =
    let set : fcntl k (set_fl f) (some x) ≡ set_flags k f x = set_fl_lem k f x o in
    let view : user_view (record x { usr_non_block = f.non_block }) (k get_fl)
        ≡ some (file_flags (with_non_block f.non_block g)) =
      rw a refl in
    (
      ap (λ r. (fcntl k get_fl r.ctx).result) set
          ∙ get_fl_lem k (record x { usr_non_block = f.non_block }) o
          ∙ view,
      ap (λ r. r.asked) set,
    )
