-- ===== src/Controlplane/Effect.antt =====
-- Passes of the controller as programs over the calls they make. A program says which call comes
-- next for every answer to the ones before, so a statement about all runs of a program holds whatever
-- the API server and Harbor answer.
use harbor_workload_identity.Base.{
  Bool, true, false, ◌≡◌, inl, inr, refl, List, [], ◌∷◌, ◌++◌, Result, ok, err, In, if◌then◌else◌,
}
use harbor_workload_identity.Base.Int.{ℤ}
use harbor_workload_identity.Text.{Bytes}
use harbor_workload_identity.Naming.{ProjectPermission}
use harbor_workload_identity.RobotSecret.{Secret}
use harbor_workload_identity.HarborAccess.{HarborAccess}
use harbor_workload_identity.Contract.{Robot}

-- The errors of the API server and of the Harbor client that callers tell apart.
pub data CallError : Type 0 where
  not_found already_exists conflict : CallError
  failed : Bytes → CallError

-- The calls of the Kubernetes client and of `HarborClient`.
pub data Call : Type 0 where
  get_secret : Bytes → Bytes → Call
  create_secret update_secret : Secret → Call
  -- With the Secret's UID as a precondition.
  delete_secret : Secret → Call
  -- The object, and the finalizers it is to have.
  patch_finalizers : HarborAccess → List Bytes → Call
  update_status : HarborAccess → Call
  get_harbor_access : Bytes → Bytes → Call
  get_robot : Bytes → Call
  list_robots : Call
  create_robot : Bytes → Bytes → List ProjectPermission → Call
  update_robot : Robot → Bytes → List ProjectPermission → Call
  refresh_secret delete_robot : ℤ → Call

abbrev pub Value : Call → Type 0
Value (get_secret namespace name) = Secret
Value (get_harbor_access namespace name) = HarborAccess
Value (get_robot name) = Robot
Value list_robots = List Robot
Value (create_robot name description permissions) = Robot
Value (refresh_secret id) = Bytes
Value (create_secret s) = Unit
Value (update_secret s) = Unit
Value (delete_secret s) = Unit
Value (patch_finalizers ha finalizers) = Unit
Value (update_status ha) = Unit
Value (update_robot robot description permissions) = Unit
Value (delete_robot id) = Unit

abbrev pub Answer : Call → Type 0
Answer c = Result CallError (Value c)

pub data Prog (A : Type 0) : Type 0 where
  ret : A → Prog A
  call : (c : Call) → (Answer c → Prog A) → Prog A

unfoldable pub bind : {A B : Type 0} → Prog A → (A → Prog B) → Prog B
bind (ret a) f = f a
bind (call c k) f = call c (λ x. bind (k x) f)

-- A call that was answered; a history holds the last one first.
pub data Event : Type 0 where
  answered : (c : Call) → Answer c → Event

abbrev pub History : Type 0
History = List Event

-- The later history holds the earlier one.
abbrev pub Extends : History → History → Type 0
Extends h h' = (e : Event) → In e h → In e h'

-- Whatever is answered, every call is allowed by the history before it, and the result and the whole
-- history are as wanted.
unfoldable pub Safe :
    {A : Type 0} → (History → Call → Type 0) → (History → A → Type 0) → History → Prog A → Type 0
Safe allowed wanted h (ret a) = wanted h a
Safe allowed wanted h (call c k) =
    allowed h c × ((x : Answer c) → Safe allowed wanted (answered c x ∷ h) (k x))

module _ {A : Type 0} (allowed : History → Call → Type 0) (wanted : History → A → Type 0) where
  pub Safe-ret : {h : History} {a : A} → wanted h a → Safe allowed wanted h (ret a)
  unfolding Safe
  Safe-ret w = w

  pub Safe-call :
      {h : History} (c : Call) (k : Answer c → Prog A)
      → allowed h c
      → ((v : Value c) → Safe allowed wanted (answered c (ok v) ∷ h) (k (ok v)))
      → ((e : CallError) → Safe allowed wanted (answered c (err e) ∷ h) (k (err e)))
      → Safe allowed wanted h (call c k)
  unfolding Safe
  Safe-call c k p f g = (
    p,
    λ x. elim x as (λ x. Safe allowed wanted (answered c x ∷ _) (k x)) [ ok v ↦ f v | err e ↦ g e ],
  )

  pub Safe-if :
      (h : History) (b : Bool) (m n : Prog A)
      → (b ≡ true → Safe allowed wanted h m)
      → (b ≡ false → Safe allowed wanted h n)
      → Safe allowed wanted h (if b then m else n)
  Safe-if h true m n f g = f refl
  Safe-if h false m n f g = g refl

pub Safe-bind :
    {A B : Type 0} (allowed : History → Call → Type 0) (between : History → A → Type 0)
    (wanted : History → B → Type 0) (h : History) (m : Prog A) (f : A → Prog B)
    → Safe allowed between h m
    → ((h' : History) (a : A) → between h' a → Safe allowed wanted h' (f a))
    → Safe allowed wanted h (bind m f)
unfolding Safe bind
Safe-bind allowed between wanted h (ret a) f s k = k h a s
Safe-bind allowed between wanted h (call c m) f s k =
    (s.0, λ x. Safe-bind allowed between wanted (answered c x ∷ h) (m x) f (s.1 x) k)

pub Safe-weaken :
    {A : Type 0} (allowed : History → Call → Type 0) (wanted wanted' : History → A → Type 0)
    (h : History) (m : Prog A)
    → Safe allowed wanted h m
    → ((h' : History) (a : A) → wanted h' a → wanted' h' a)
    → Safe allowed wanted' h m
unfolding Safe
Safe-weaken allowed wanted wanted' h (ret a) s k = k h a s
Safe-weaken allowed wanted wanted' h (call c m) s k =
    (s.0, λ x. Safe-weaken allowed wanted wanted' (answered c x ∷ h) (m x) (s.1 x) k)

-- A program that is safe on its own is safe behind any history whose rule allows as much.
pub Safe-frame :
    {A : Type 0} (allowed allowed' : History → Call → Type 0)
    (wanted wanted' : History → A → Type 0) (g h : History) (m : Prog A)
    → ((h : History) (c : Call) → allowed h c → allowed' (h ++ g) c)
    → ((h : History) (a : A) → wanted h a → wanted' (h ++ g) a)
    → Safe allowed wanted h m
    → Safe allowed' wanted' (h ++ g) m
unfolding Safe
Safe-frame allowed allowed' wanted wanted' g h (ret a) p q s = q h a s
Safe-frame allowed allowed' wanted wanted' g h (call c m) p q s = (
  p h c s.0,
  λ x. Safe-frame allowed allowed' wanted wanted' g (answered c x ∷ h) (m x) p q (s.1 x),
)

pub In-frame : (e : Event) (h g : History) → In e h → In e (h ++ g)
In-frame e [] g i = absurd i
In-frame e (x ∷ h) g (inl q) = inl q
In-frame e (x ∷ h) g (inr i) = inr (In-frame e h g i)
