-- ===== src/Bootstrap/Assertoor/Serialized.antt =====
-- What `serialize_to_yaml` of src/etb/config/assertor.py keeps.
use ethereum_testnet_bootstr.Bootstrap.Assertoor.{
  Data, scalar, null, items, fields, DataItems, no_items, item, DataFields, no_fields, field,
  convert, convert_items, convert_fields,
}

-- No list and no dict holds a `None`.
unfoldable mutual
  pub IsClean : Data → Type 0
  IsClean (scalar s) = Unit
  IsClean null = Unit
  IsClean (items xs) = AreClean xs
  IsClean (fields fs) = AreCleanFields fs

  pub AreClean : DataItems → Type 0
  AreClean no_items = Unit
  AreClean (item null xs) = ⊥
  AreClean (item x xs) = IsClean x × AreClean xs

  pub AreCleanFields : DataFields → Type 0
  AreCleanFields no_fields = Unit
  AreCleanFields (field k null fs) = ⊥
  AreCleanFields (field k v fs) = IsClean v × AreCleanFields fs

mutual
  unfolding convert IsClean

  clean : (x : Data) → IsClean (convert x)
  clean (scalar s) = tt
  clean null = tt
  clean (items xs) = clean_items xs
  clean (fields fs) = clean_fields fs

  clean_items : (xs : DataItems) → AreClean (convert_items xs)
  clean_items no_items = tt
  clean_items (item null xs) = clean_items xs
  clean_items (item (scalar s) xs) = (tt, clean_items xs)
  clean_items (item (items ys) xs) = (clean_items ys, clean_items xs)
  clean_items (item (fields ys) xs) = (clean_fields ys, clean_items xs)

  clean_fields : (fs : DataFields) → AreCleanFields (convert_fields fs)
  clean_fields no_fields = tt
  clean_fields (field k null fs) = clean_fields fs
  clean_fields (field k (scalar s) fs) = (tt, clean_fields fs)
  clean_fields (field k (items ys) fs) = (clean_items ys, clean_fields fs)
  clean_fields (field k (fields ys) fs) = (clean_fields ys, clean_fields fs)

-- What is serialized holds no `None` in a list or in a dict, at any depth.
pub convert-IsClean : (x : Data) → IsClean (convert x)
convert-IsClean x = clean x
