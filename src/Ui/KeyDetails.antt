-- ===== src/Ui/KeyDetails.antt =====
-- authority/manage-ui/src/components/hosts/KeyDetailsModal.tsx. The field that has been copied is
-- `none` where the state is `null`; `date_text` is what `new Date(v).toLocaleString()` gives, and
-- `write_text` stands for `navigator.clipboard.writeText`.
use agience.Base.{String, Bool, false, Option, none, some, [], ◌∷◌, ◌&&◌, ◌==◌, if◌then◌else◌}
use agience.Js.Value.{Value, str, get?, truthy, or_else, text}
use agience.Js.Exec.{try_catch, ◌>>◌}
use agience.World.{Io, log_error}
use agience.Ui.{Ui, update, io}
use agience.Html.{attr, value, marked, on_click, Html, ◌&◌, nothing, txt, child, el, show_if}

abbrev pub Copied : Type 0
Copied = Option String

abbrev is_copied : Copied → String → Bool
is_copied none field = false
is_copied (some f) field = f == field

module _ {A : Type 0} (date_text : Value → String) (copied : Copied) (on_close : A)
    (on_copy : String → String → A) where
  -- A field that can be copied, and its button
  unfoldable pub copy_row : Value → String → Value → Html A
  unfolding text
  copy_row shown field copy = el "div" [] (
      el "input" (attr "type" "text" ∷ value shown ∷ attr "readonly" "" ∷ []) nothing
      & el "button" (on_click false (on_copy (text copy) field) ∷ [])
          (el "span" [] (txt (if is_copied copied field then "Copied" else "Copy"))))

  unfoldable pub key_details_modal : Bool → Value → Html A
  key_details_modal is_open key =
      let active = truthy (get? "isActive" key) in
      let secret = get? "value" key in
      show_if (is_open && truthy key) (
        el "div" [] (
          el "div" [] (
            el "div" []
              (el "h3" [] (txt "Key Details") & el "button" (on_click false on_close ∷ []) nothing)
            & el "div" [] (
                el "div" [] (
                  el "label" [] (txt "Host ID")
                  & copy_row (get? "hostId" key) "hostId" (get? "hostId" key))
                & show_if (truthy secret) (
                    el "div" [] (
                      el "label" [] (txt "Host Secret")
                      & copy_row secret "value" (or_else secret (str ""))
                      & el "p" [] (
                          txt
                            "Important: This is the only time you will see the Host ID and Secret. Please copy them now.")))
                & el "div" [] (
                    el "div" [] (el "label" [] (txt "Name") & el "p" [] (child (get? "name" key)))
                    & el "div" [] (
                        el "label" [] (txt "Status")
                        & el "p" [] (
                            el "span" (marked active ∷ [])
                              (txt (if active then "Active" else "Inactive")))))
                & el "div" [] (
                    el "label" [] (txt "Created Date")
                    & el "p" [] (txt (date_text (get? "created_date" key)))))
            & el "div" []
                (el "button" (attr "type" "button" ∷ on_click false on_close ∷ []) (txt "Close")))))

-- What becomes of the text is the browser's; two seconds later `expire` runs.
unfoldable pub copy_to_clipboard : (String → Io (Unit {0})) → String → String → Ui Copied (Unit {0})
unfolding update io log_error
copy_to_clipboard write_text text field =
    try_catch (do io (write_text text); update (λ v. some field))
      (λ err. io (log_error "Failed to copy:"))

unfoldable pub expire : Ui Copied (Unit {0})
unfolding update
expire = update λ v. none
