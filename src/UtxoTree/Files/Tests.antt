-- ===== src/UtxoTree/Files/Tests.antt =====
-- The file store at a concrete input, with a small codec in place of JSON: numbers stand for
-- themselves, a text has each code raised by one and ends with zero, and a list starts with its length.
use railgun_go.Common.{
  Bool, ltb, ◌&&◌, ◌≡◌, refl, ap, ◌∙◌, true, none, List, [], ◌∷◌, ◌++◌, Text, ok, err, Result, ℕ,
  zero, suc, length, codes, read_failed,
}
use railgun_go.UtxoTree.{Leaf}
use railgun_go.UtxoTree.Files.{Codec, FileStore, missing}
use railgun_go.UtxoTree.Files.Changes.{
  IsCodec, Change, upsert, upsert_all, roll_back, Alike, run_file, run_memory,
}
use railgun_go.UtxoTree.Files.Refine.{run_file-Alike}

abbrev encode_text : Text → Text → Text
encode_text [] rest = 0 ∷ rest
encode_text (c ∷ t) rest = suc c ∷ encode_text t rest

abbrev decode_text : Text → Text × Text
decode_text [] = ([], [])
decode_text (zero ∷ r) = ([], r)
decode_text (suc c ∷ r) = let (t, rest) = decode_text r in (c ∷ t, rest)

decode_text-encode_text : (t rest : Text) → decode_text (encode_text t rest) ≡ (t, rest)
decode_text-encode_text [] rest = refl
decode_text-encode_text (c ∷ t) rest = rw (decode_text-encode_text t rest) refl

encode_text-append :
    (t rest more : Text) → encode_text t rest ++ more ≡ encode_text t (rest ++ more)
encode_text-append [] rest more = refl
encode_text-append (c ∷ t) rest more = ap (λ r. suc c ∷ r) (encode_text-append t rest more)

abbrev encode_leaf : Leaf → Text → Text
encode_leaf leaf rest =
    leaf.tree
    ∷ leaf.index
    ∷ leaf.block_number
    ∷ encode_text leaf.hash (encode_text leaf.txid (encode_text leaf.commitment_type rest))

abbrev no_leaf : Leaf
no_leaf = record {
  tree = 0;
  index = 0;
  hash = [];
  txid = [];
  commitment_type = [];
  block_number = 0;
}

abbrev decode_leaf : Text → Leaf × Text
decode_leaf (tree ∷ index ∷ block ∷ r) =
    let (hash, s) = decode_text r in
    let (txid, t) = decode_text s in
    let (kind, rest) = decode_text t in
    (
      record {
        tree = tree;
        index = index;
        hash = hash;
        txid = txid;
        commitment_type = kind;
        block_number = block;
      },
      rest,
    )
decode_leaf _ = (no_leaf, [])

decode_leaf-encode_leaf :
    (leaf : Leaf) (rest : Text) → decode_leaf (encode_leaf leaf rest) ≡ (leaf, rest)
decode_leaf-encode_leaf leaf rest =
    rw
      (
        decode_text-encode_text leaf.hash
            (encode_text leaf.txid (encode_text leaf.commitment_type rest)),
        decode_text-encode_text leaf.txid (encode_text leaf.commitment_type rest),
        decode_text-encode_text leaf.commitment_type rest,
      )
      refl

abbrev encode_leaves : List Leaf → Text → Text
encode_leaves [] rest = rest
encode_leaves (leaf ∷ leaves) rest = encode_leaf leaf (encode_leaves leaves rest)

abbrev decode_leaves : ℕ → Text → List Leaf
decode_leaves zero text = []
decode_leaves (suc n) text = let (leaf, rest) = decode_leaf text in leaf ∷ decode_leaves n rest

decode_leaves-encode_leaves :
    (leaves : List Leaf) (rest : Text)
    → decode_leaves (length leaves) (encode_leaves leaves rest) ≡ leaves
decode_leaves-encode_leaves [] rest = refl
decode_leaves-encode_leaves (leaf ∷ leaves) rest =
    ap (λ p. p.0 ∷ decode_leaves (length leaves) p.1)
      (decode_leaf-encode_leaf leaf (encode_leaves leaves rest))
    ∙ ap (λ ls. leaf ∷ ls) (decode_leaves-encode_leaves leaves rest)

encode_leaves-append :
    (leaves : List Leaf) (rest more : Text)
    → encode_leaves leaves rest ++ more ≡ encode_leaves leaves (rest ++ more)
encode_leaves-append [] rest more = refl
encode_leaves-append (leaf ∷ leaves) rest more =
    rw
      (
        encode_text-append leaf.hash
            (encode_text leaf.txid (encode_text leaf.commitment_type (encode_leaves leaves rest)))
            more,
        encode_text-append leaf.txid (encode_text leaf.commitment_type (encode_leaves leaves rest))
            more,
        encode_text-append leaf.commitment_type (encode_leaves leaves rest) more,
        encode_leaves-append leaves rest more,
      )
      refl

abbrev read_leaves : Text → Result (List Leaf)
read_leaves [] = err read_failed
read_leaves (n ∷ r) = ok (decode_leaves n r)

abbrev codec : Codec
codec = record {
  marshal = λ leaves. ok (length leaves ∷ encode_leaves leaves []);
  unmarshal = read_leaves;
}

-- Of ASCII codes only.
abbrev is_ascii : Text → Bool
is_ascii [] = true
is_ascii (c ∷ s) = ltb c 128 && is_ascii s

codec-IsCodec : IsCodec codec is_ascii
codec-IsCodec = record {
  writes = λ leaves. (_, refl);
  reads = λ leaves bytes t e.
      let same : bytes ≡ length leaves ∷ encode_leaves leaves [] = cc e in
      rw
        (
          same,
          encode_leaves-append leaves [] (b'\n' ∷ []),
          decode_leaves-encode_leaves leaves (b'\n' ∷ []),
        )
        refl;
}

abbrev leaf : Leaf
leaf = record {
  tree = 0;
  index = 5;
  hash = codes "0a";
  txid = [];
  commitment_type = [];
  block_number = 9;
}

abbrev later : Leaf
later = record {
  tree = 1;
  index = 0;
  hash = codes "0b";
  txid = [];
  commitment_type = [];
  block_number = 12;
}

abbrev changes : List Change
changes = upsert none leaf ∷ upsert_all none (later ∷ []) ∷ roll_back none 10 ∷ []

abbrev empty_store : FileStore
empty_store = record { has_path = true; file = missing; write = ok tt }

run_file-Alike_example : Alike codec (run_file codec changes empty_store) (run_memory changes [])
run_file-Alike_example =
    run_file-Alike codec is_ascii codec-IsCodec empty_store changes
      ((refl, refl, refl), (((refl, refl, refl), tt), (tt, tt))) refl refl refl
