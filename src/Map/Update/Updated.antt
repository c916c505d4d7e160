-- ===== src/Map/Update/Updated.antt =====
-- What an update leaves.
use cpam.Base.{Option, none, some}
use cpam.Node.{Node}
use cpam.Entry.{Entry}
use cpam.Entry.Refines.{Refines}
use cpam.Map.Update.{update_value}

module _ {ℓ κ μ} {E : Type ℓ} {K : Type κ} {V : Type μ} (ent : Entry E K V) where
  open ent use {
    get_key, get_val, set_val, comp, comp_irrefl, comp_trans, comp_total, get_key-set_val,
  }

  -- The answer of a key, with its value set to what the operation makes of it.
  abbrev pub changed : (E → V) → Option E → Option E
  changed f none = none
  changed f (some e) = some (update_value ent f e)
