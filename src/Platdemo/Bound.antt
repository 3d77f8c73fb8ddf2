-- ===== src/Platdemo/Bound.antt =====
-- platdemo.c while it is bound: the driver core calls `platdev_probe` when device and driver are both
-- registered and match, and `platdev_remove` before one of them goes; both read the private data.
use l3_dd_trg.Base.{
  ℕ, ◌≡◌, ◌≢◌, refl, Bool, true, false, Option, none, some, List, [], ◌∷◌, ◌&&◌, if◌then◌else◌,
  ◌>>=◌, arith,
}
use l3_dd_trg.Base.Int.{ℤ, pos}
use l3_dd_trg.Base.Ledger.{Event, acquire, release}
use l3_dd_trg.Platdemo.{
  Held, private_data, device, driver, Private, zeroed, platdev_probe, Kernel, platdev_init,
  platdev_exit,
}

-- The result, and the `data_xform` that is logged; `none` is a private data that is not there. Newer
-- kernels take no result.
unfoldable platdev_remove : Option Private → Option (ℤ × ℕ)
platdev_remove none = none
platdev_remove (some priv) = some (pos 0, priv.data_xform)

-- The private data while it is allocated, what is registered, whether the driver is bound to the device,
-- and what removals have logged, the last first.
pub record Core : Type 0 where
  pub priv : Option Private
  pub has_device : Bool
  pub has_driver : Bool
  pub bound : Bool
  pub logged : List ℕ

abbrev pub unloaded : Core
unloaded = record {
  priv = none;
  has_device = false;
  has_driver = false;
  bound = false;
  logged = [];
}

-- The driver core, after something is registered; `matching` is its match of the device with the driver.
unfoldable pub bind : Bool → Core → Option Core
bind matching c =
    if c.has_device && c.has_driver && matching
    then (platdev_probe c.priv >>= λ (ret, priv).
        some (record c { priv = some priv; bound = true }))
    else some c

-- The driver core, before something is unregistered.
unfoldable unbind : Core → Option Core
unbind c =
    if c.bound
    then (platdev_remove c.priv >>= λ (ret, data_xform).
        some (record c { bound = false; logged = data_xform ∷ c.logged }))
    else some c

-- What the calls of `platdev_init` and `platdev_exit` do; `none` is an access to private data that is
-- not there.
unfoldable perform : Bool → Event Held → Core → Option Core
perform matching (acquire private_data) c = some (record c { priv = some zeroed })
perform matching (acquire device) c = bind matching (record c { has_device = true })
perform matching (acquire driver) c = bind matching (record c { has_driver = true })
perform matching (release private_data) c = some (record c { priv = none })
perform matching (release device) c = unbind c >>= λ c'. some (record c' { has_device = false })
perform matching (release driver) c = unbind c >>= λ c'. some (record c' { has_driver = false })

unfoldable perform_all : Bool → List (Event Held) → Core → Option Core
perform_all matching [] c = some c
perform_all matching (e ∷ es) c = perform matching e c >>= λ c'. perform_all matching es c'

-- Whatever the kernel answers, and whether device and driver match or not: nobody reads private data
-- that is not there. A load that fails leaves everything as before; after a load that returns 0 the
-- driver is bound exactly if they match, and the teardown leaves everything as before, but for the log
-- of a driver that was bound, which shows the value that the probe has set.
init-perform_all :
    (k : Kernel) (matching : Bool)
    → ((platdev_init k).ret ≢ pos 0
        → perform_all matching (platdev_init k).events unloaded ≡ some unloaded)
      × ((platdev_init k).ret ≡ pos 0
          → (c : Core) × (perform_all matching (platdev_init k).events unloaded ≡ some c)
            × (c.bound ≡ matching)
            × (perform_all matching platdev_exit c
                ≡ some (record unloaded { logged = if matching then 100 ∷ [] else [] })))
unfolding perform_all perform bind unbind platdev_probe platdev_remove platdev_init platdev_exit
init-perform_all k true = (
  ground arith,
  λ z. (
    record {
      priv = some (record zeroed { data_xform = 100 });
      has_device = true;
      has_driver = true;
      bound = true;
      logged = [];
    },
    ground arith,
    refl,
    ground arith,
  ),
)
init-perform_all k false = (
  ground arith,
  λ z. (
    record { priv = some zeroed; has_device = true; has_driver = true; bound = false; logged = [] },
    ground arith,
    refl,
    ground arith,
  ),
)
