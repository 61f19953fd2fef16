-- ===== src/Ui/Details.antt =====
-- authority/manage-ui/src/components/settings/ConnectionDetails.tsx and AuthorizerDetails.tsx.
-- `date_text` is what `new Date(v).toLocaleDateString()` gives.
use agience.Base.{String, false, [], ◌∷◌}
use agience.Js.Value.{Value, str, get?, or_else}
use agience.Html.{on_click, Html, ◌&◌, txt, child, el, show_where}

module _ {A : Type 0} (date_text : Value → String) (on_edit on_delete : A) where
  unfoldable pub details_head : String → Html A
  details_head title = el "div" [] (
      el "h2" [] (txt title)
      & el "div" [] (
          el "button" (on_click false on_edit ∷ []) (txt "Edit")
          & el "button" (on_click false on_delete ∷ []) (txt "Delete")))

  unfoldable pub created : Value → Html A
  created shown = show_where (get? "created_date" shown) (
      el "div" []
        (el "h3" [] (txt "Created Date") & el "p" [] (txt (date_text (get? "created_date" shown)))))

  unfoldable pub connection_details : Value → Html A
  connection_details connection =
      let authorizer = get? "authorizer" connection in
      el "div" [] (
        details_head "Connection Details"
        & el "div" [] (
            el "div" [] (el "h3" [] (txt "Name") & el "p" [] (child (get? "name" connection)))
            & el "div" [] (
                el "h3" [] (txt "Authorizer")
                & el "div" [] (
                    el "span" [] (child (or_else (get? "name" authorizer) (str "Unknown")))
                    & show_where authorizer
                        (el "span" [] (txt "(" & child (get? "type" authorizer) & txt ")"))))
            & el "div" []
                (el "h3" [] (txt "Description") & el "p" [] (child (get? "description" connection)))
            & created connection
            & el "div" [] (el "h3" [] (txt "ID") & el "p" [] (child (get? "id" connection)))
            & show_where authorizer (
                el "div" [] (
                  el "h3" [] (txt "Authorizer Details")
                  & el "div" [] (
                      el "div" []
                        (el "h4" [] (txt "Type") & el "p" [] (child (get? "type" authorizer)))
                      & el "div" []
                          (el "h4" [] (txt "ID") & el "p" [] (child (get? "id" authorizer))))))))

  unfoldable pub authorizer_details : Value → Html A
  authorizer_details authorizer = el "div" [] (
      details_head "Authorizer Details"
      & el "div" [] (
          el "div" [] (el "h3" [] (txt "Name") & el "p" [] (child (get? "name" authorizer)))
          & el "div" [] (el "h3" [] (txt "Type") & el "span" [] (child (get? "type" authorizer)))
          & created authorizer
          & el "div" [] (el "h3" [] (txt "ID") & el "p" [] (child (get? "id" authorizer)))))
