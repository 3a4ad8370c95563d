-- ===== src/Kms/Disk.antt =====
-- What internal/kms/storage.go keeps under its root: a directory for each key, and the aliases. A
-- file holds the value that was written to it as JSON, or, after a write that failed, text that
-- does not parse.
use kumolo.Prelude.{Option, none, some, List, [], ◌∷◌}
use kumolo.Prelude.Bytes.{Bytes}
use kumolo.Prelude.Dict.{Dict, find, insert}
use kumolo.Kms.Types.{
  KeyMetadata, KeyMaterial, KeyRotationConfig, RotationRecord, AliasEntry, Grant,
}

pub data File (A : Type 0) : Type 0 where
  absent : File A
  torn : File A
  holds : A → File A

-- keys/{id}: meta.json, material.json, policy.json, rotation.json, tags.json,
-- rotation_history.json, and the directories materials and grants, where they have been made.
pub record KeyDir : Type 0 where
  pub meta : File KeyMetadata
  pub material : File KeyMaterial
  pub policy : File Bytes
  pub rotation : File KeyRotationConfig
  pub tags : File (Dict Bytes)
  pub history : File (List RotationRecord)
  pub materials : Option (Dict (File KeyMaterial))
  pub grants : Option (Dict (File Grant))

pub record Disk : Type 0 where
  pub keys : Dict KeyDir
  pub aliases : Dict (File AliasEntry)

abbrev pub empty_dir : KeyDir
empty_dir = record {
  meta = absent;
  material = absent;
  policy = absent;
  rotation = absent;
  tags = absent;
  history = absent;
  materials = none;
  grants = none;
}

-- One of the files of a key's directory.
pub record Place (A : Type 0) : Type 0 where
  pub read : KeyDir → File A
  pub write : File A → KeyDir → KeyDir

abbrev pub meta_json : Place KeyMetadata
meta_json = record { read = λ d. d.meta; write = λ f d. record d { meta = f } }

abbrev pub material_json : Place KeyMaterial
material_json = record { read = λ d. d.material; write = λ f d. record d { material = f } }

abbrev pub policy_json : Place Bytes
policy_json = record { read = λ d. d.policy; write = λ f d. record d { policy = f } }

abbrev pub rotation_json : Place KeyRotationConfig
rotation_json = record { read = λ d. d.rotation; write = λ f d. record d { rotation = f } }

abbrev pub tags_json : Place (Dict Bytes)
tags_json = record { read = λ d. d.tags; write = λ f d. record d { tags = f } }

abbrev pub rotation_history_json : Place (List RotationRecord)
rotation_history_json = record { read = λ d. d.history; write = λ f d. record d { history = f } }

-- A file in a directory that may not have been made.
abbrev pub entry_of : {A : Type 0} → Bytes → Option (Dict (File A)) → File A
entry_of name none = absent
entry_of name (some d) = elim (find name d) [ none ↦ absent | some f ↦ f ]

-- A key's file, where the key has a directory.
abbrev pub file_at : {A : Type 0} → Place A → Bytes → Disk → File A
file_at p k d = elim (find k d.keys) [ none ↦ absent | some dir ↦ p.read dir ]

abbrev pub alias_at : Bytes → Disk → File AliasEntry
alias_at a d = elim (find a d.aliases) [ none ↦ absent | some f ↦ f ]

abbrev pub put_dir : Bytes → KeyDir → Disk → Disk
put_dir k dir d = record d { keys = insert k dir d.keys }

abbrev pub put_alias : Bytes → File AliasEntry → Disk → Disk
put_alias a f d = record d { aliases = insert a f d.aliases }

-- The names in a directory.
unfoldable pub names_of : {A : Type 0} → Dict A → List Bytes
names_of [] = []
names_of ((k, v) ∷ d) = k ∷ names_of d
