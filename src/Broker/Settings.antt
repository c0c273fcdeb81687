-- ===== src/Broker/Settings.antt =====
-- broker/broker.c: the settings
use rpc_broker.Base.{
  ℕ, zero, suc, ◌≡◌, refl, Bool, true, false, Option, none, some, [], ◌∷◌, ◌++◌, arith, length, ◌≤◌,
  ◌+◌, ap,
}
use rpc_broker.Base.{if◌then◌else◌}
use rpc_broker.Base.{take, replicate}
use rpc_broker.Base.{Text, codes, until_nul, NoNul}
use rpc_broker.Outcome.{Outcome, done, fault, ◌>>=◌}
use rpc_broker.Common.Settings.{Details, no_details, strncpy}
use rpc_broker.Common.Protocol.{max_port_chars, max_address_chars}
use mathlib.Core.List.{append-nil}

-- `config` as far as the settings go, and `details`
pub record BrokerSettings : Type 0 where
  pub verbose : Bool
  pub wait_indef : Bool
  pub details : Details

abbrev pub no_broker_settings : BrokerSettings
no_broker_settings = record { verbose = false; wait_indef = false; details = no_details }

-- `equals_ignore_case` stands for STR_EqualsIgnoreCase. A setting that the file does not have is
-- `none`.
module _ (equals_ignore_case : Option Text → Text → Outcome Bool) where
  unfoldable pub is_true_string : Option Text → Outcome Bool
  is_true_string arg = equals_ignore_case arg (codes "1") >>= λ is_one.
      if is_one then done true else equals_ignore_case arg (codes "true")

  unfoldable pub get_verbose_setting : Option Text → BrokerSettings → Outcome BrokerSettings
  unfolding is_true_string
  get_verbose_setting arg s = is_true_string arg >>= λ b. done (record s { verbose = b })

  unfoldable pub get_wait_setting : Option Text → BrokerSettings → Outcome BrokerSettings
  unfolding is_true_string
  get_wait_setting arg s = is_true_string arg >>= λ b. done (record s { wait_indef = b })

-- It stores the port.
unfoldable pub get_address_setting : Option Text → BrokerSettings → Outcome BrokerSettings
unfolding strncpy
get_address_setting none s = fault
get_address_setting (some port) s = strncpy s.details.port port max_port_chars >>= λ bytes.
    done (record s { details = record { port = bytes; address = s.details.address } })

-- It stores the address.
unfoldable pub get_port_setting : Option Text → BrokerSettings → Outcome BrokerSettings
unfolding strncpy
get_port_setting none s = fault
get_port_setting (some address) s = strncpy s.details.address address max_address_chars >>= λ bytes.
    done (record s { details = record { port = s.details.port; address = bytes } })

-- The settings of the file, as `main` reads them.
unfoldable pub read_broker_settings :
    (Option Text → Text → Outcome Bool)
    → (verbose wait port address : Option Text) → BrokerSettings
    → Outcome BrokerSettings
unfolding get_verbose_setting get_wait_setting get_address_setting get_port_setting
read_broker_settings equals_ignore_case verbose wait port address s =
    get_verbose_setting equals_ignore_case verbose s
    >>= get_wait_setting equals_ignore_case wait
    >>= get_address_setting port
    >>= get_port_setting address

until_nul-padded :
    (n k : ℕ) (t : Text) → NoNul t → until_nul (take n (t ++ replicate k 0)) ≡ take n t
until_nul-padded zero k t h = refl
until_nul-padded (suc n) zero [] h = refl
until_nul-padded (suc n) (suc k) [] h = refl
until_nul-padded (suc n) k (b ∷ t) h = ground (arith, until_nul-padded n k t h.1)

length-padded : (t : Text) (n k : ℕ) → n ≤ k + length t → length (take n (t ++ replicate k 0)) ≡ n
length-padded t zero k h = refl
length-padded [] (suc n) zero h = absurd (omega arith)
length-padded [] (suc n) (suc k) h = ap suc (length-padded [] n k (omega arith))
length-padded (b ∷ t) (suc n) k h = ap suc (length-padded t n k (omega arith))

-- The broker takes the port and the address of its file, each cut to the size of its array, and the
-- two flags as the comparisons say.
pub read_broker_settings_lem :
    (equals_ignore_case : Option Text → Text → Outcome Bool) (verbose wait : Option Text)
    (port address : Text) (v w : Bool)
    → is_true_string equals_ignore_case verbose ≡ done v
    → is_true_string equals_ignore_case wait ≡ done w
    → NoNul port
    → NoNul address
    → (s : BrokerSettings) × (read_broker_settings equals_ignore_case verbose wait
          (some port)
          (some address)
          no_broker_settings
        ≡ done s)
      × (until_nul s.details.port ≡ take max_port_chars port)
      × (until_nul s.details.address ≡ take max_address_chars address)
      × (length s.details.port ≡ max_port_chars)
      × (length s.details.address ≡ max_address_chars)
      × (s.verbose ≡ v)
      × (s.wait_indef ≡ w)
unfolding read_broker_settings strncpy get_verbose_setting get_wait_setting
read_broker_settings_lem equals_ignore_case verbose wait port address v w vt wt pn an = (
  record {
    verbose = v;
    wait_indef = w;
    details = record {
      port = take max_port_chars (port ++ replicate max_port_chars 0);
      address = take max_address_chars (address ++ replicate max_address_chars 0);
    };
  },
  rw (vt, wt, append-nil, append-nil) refl,
  until_nul-padded max_port_chars max_port_chars port pn,
  until_nul-padded max_address_chars max_address_chars address an,
  length-padded port max_port_chars max_port_chars (omega arith),
  length-padded address max_address_chars max_address_chars (omega arith),
  refl,
  refl,
)
