-- ===== src/Patch/History.antt =====
-- The lines of the history: `append_history` writes them, `parse_history_line` reads them.
use ai_editor.Prelude.{
  ◌≡◌, sym, ap, ◌∙◌, ◌≢◌, false, List, [], ◌∷◌, ◌++◌, append-nil, append_assoc, ◌==◌, arith,
  if◌then◌else◌,
}
use ai_editor.Text.{Bytes}
use ai_editor.Document.Laws.{All}

pub record HistoryItem : Type 0 where
  pub timestamp : Bytes
  pub method : Bytes
  pub path : Bytes
  pub backup_id : Bytes
  pub client_id : Bytes
  pub session_id : Bytes
  pub request_id : Bytes

-- The line that `append_history` writes, but for its newline.
unfoldable pub history_line : HistoryItem → Bytes
history_line item =
    item.timestamp
    ++ (9
        ∷ (item.method
            ++ (9
                ∷ (item.path
                    ++ (9
                        ∷ (item.backup_id
                            ++ (9
                                ∷ (item.client_id
                                    ++ (9 ∷ (item.session_id ++ (9 ∷ item.request_id)))))))))))

-- The loop of `parse_history_line`, with the field that is open.
unfoldable pub tab_fields : Bytes → Bytes → List Bytes
tab_fields field [] = field ∷ []
tab_fields field (c ∷ line) =
    let rest = tab_fields (if c == 9 then [] else field ++ (c ∷ [])) line in
    if c == 9 then field ∷ rest else rest

-- `HistoryItem item;`, filled if there are at least seven fields
unfoldable pub item_of : List Bytes → HistoryItem
item_of (a ∷ b ∷ c ∷ d ∷ e ∷ f ∷ g ∷ more) = record {
  timestamp = a;
  method = b;
  path = c;
  backup_id = d;
  client_id = e;
  session_id = f;
  request_id = g;
}
item_of fields = record {
  timestamp = [];
  method = [];
  path = [];
  backup_id = [];
  client_id = [];
  session_id = [];
  request_id = [];
}

unfoldable pub parse_history_line : Bytes → HistoryItem
unfolding tab_fields item_of
parse_history_line line = item_of (tab_fields [] line)

abbrev pub IsField : Bytes → Type 0
IsField = All (λ c. c ≢ 9)

tab_fields-field :
    (field value rest : Bytes)
    → IsField value
    → tab_fields field (value ++ (9 ∷ rest)) ≡ (field ++ value) ∷ tab_fields [] rest
unfolding tab_fields
tab_fields-field field [] rest h = ap (λ f. f ∷ tab_fields [] rest) (sym (append-nil field))
tab_fields-field field (c ∷ value) rest (n, h) =
    let other : (c == 9) ≡ false = ground arith in
    let later = tab_fields-field (field ++ (c ∷ [])) value rest h in
    rw other (later ∙ ap (λ f. f ∷ tab_fields [] rest) (append_assoc field (c ∷ []) value))

tab_fields-last :
    (field value : Bytes) → IsField value → tab_fields field value ≡ (field ++ value) ∷ []
unfolding tab_fields
tab_fields-last field [] h = ap (λ f. f ∷ []) (sym (append-nil field))
tab_fields-last field (c ∷ value) (n, h) =
    let other : (c == 9) ≡ false = ground arith in
    let later = tab_fields-last (field ++ (c ∷ [])) value h in
    rw other (later ∙ ap (λ f. f ∷ []) (append_assoc field (c ∷ []) value))

-- No field of the item holds a tab.
abbrev pub HasFields : HistoryItem → Type 0
HasFields item =
    IsField item.timestamp
    × IsField item.method
    × IsField item.path
    × IsField item.backup_id
    × IsField item.client_id
    × IsField item.session_id
    × IsField item.request_id

-- The line of the history that is written for an item without tabs in its fields is read back as
-- that item.
pub parse_history_line-history_line :
    (item : HistoryItem) → HasFields item → parse_history_line (history_line item) ≡ item
unfolding parse_history_line item_of history_line
parse_history_line-history_line item (a, b, c, d, e, f, g) = ap item_of (
    tab_fields-field [] item.timestamp _ a
    ∙ ap (λ l. item.timestamp ∷ l)
        (tab_fields-field [] item.method _ b
          ∙ ap (λ l. item.method ∷ l)
              (tab_fields-field [] item.path _ c
                ∙ ap (λ l. item.path ∷ l)
                    (tab_fields-field [] item.backup_id _ d
                      ∙ ap (λ l. item.backup_id ∷ l)
                          (tab_fields-field [] item.client_id _ e
                            ∙ ap (λ l. item.client_id ∷ l)
                                (tab_fields-field [] item.session_id _ f
                                  ∙ ap (λ l. item.session_id ∷ l)
                                      (tab_fields-last [] item.request_id g)))))))
