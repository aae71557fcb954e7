-- ===== src/TDesktop/Performance.antt =====
-- The keys of the performance mode, which src/td/tdesktop.py has as constants.
use opentele.Prelude.{ℕ, List, [], ◌∷◌}

abbrev pub performance_local_key : List ℕ
performance_local_key =
    216 ∷ 116 ∷ 89 ∷ 68 ∷ 81 ∷ 158 ∷ 13 ∷ 45 ∷ 113 ∷ 48 ∷ 157 ∷ 108 ∷ 141 ∷ 39 ∷ 45 ∷ 198 ∷ 73 ∷ 72
    ∷ 245 ∷ 227 ∷ 235 ∷ 167 ∷ 104 ∷ 83 ∷ 36 ∷ 213 ∷ 198 ∷ 145 ∷ 173 ∷ 129 ∷ 12 ∷ 32 ∷ 59 ∷ 49 ∷ 209
    ∷ 157 ∷ 41 ∷ 174 ∷ 214 ∷ 172 ∷ 51 ∷ 192 ∷ 20 ∷ 190 ∷ 110 ∷ 9 ∷ 132 ∷ 50 ∷ 147 ∷ 246 ∷ 250 ∷ 50
    ∷ 219 ∷ 228 ∷ 43 ∷ 106 ∷ 4 ∷ 224 ∷ 4 ∷ 129 ∷ 250 ∷ 233 ∷ 149 ∷ 17 ∷ 76 ∷ 175 ∷ 99 ∷ 66 ∷ 189
    ∷ 152 ∷ 233 ∷ 109 ∷ 41 ∷ 61 ∷ 208 ∷ 98 ∷ 196 ∷ 88 ∷ 104 ∷ 155 ∷ 58 ∷ 189 ∷ 35 ∷ 165 ∷ 207 ∷ 35
    ∷ 12 ∷ 117 ∷ 82 ∷ 124 ∷ 5 ∷ 191 ∷ 95 ∷ 144 ∷ 243 ∷ 140 ∷ 217 ∷ 57 ∷ 82 ∷ 207 ∷ 97 ∷ 170 ∷ 172
    ∷ 28 ∷ 254 ∷ 170 ∷ 228 ∷ 96 ∷ 133 ∷ 146 ∷ 227 ∷ 99 ∷ 222 ∷ 211 ∷ 95 ∷ 141 ∷ 140 ∷ 69 ∷ 35 ∷ 77
    ∷ 239 ∷ 83 ∷ 35 ∷ 29 ∷ 236 ∷ 179 ∷ 85 ∷ 146 ∷ 175 ∷ 196 ∷ 13 ∷ 6 ∷ 1 ∷ 187 ∷ 237 ∷ 17 ∷ 9 ∷ 9
    ∷ 105 ∷ 247 ∷ 77 ∷ 154 ∷ 176 ∷ 204 ∷ 151 ∷ 130 ∷ 117 ∷ 70 ∷ 244 ∷ 65 ∷ 36 ∷ 45 ∷ 44 ∷ 251 ∷ 142
    ∷ 5 ∷ 160 ∷ 97 ∷ 14 ∷ 151 ∷ 102 ∷ 156 ∷ 13 ∷ 161 ∷ 173 ∷ 204 ∷ 181 ∷ 110 ∷ 57 ∷ 225 ∷ 12 ∷ 105
    ∷ 226 ∷ 148 ∷ 35 ∷ 135 ∷ 255 ∷ 73 ∷ 34 ∷ 248 ∷ 197 ∷ 93 ∷ 203 ∷ 136 ∷ 144 ∷ 227 ∷ 69 ∷ 239 ∷ 49
    ∷ 130 ∷ 102 ∷ 244 ∷ 179 ∷ 131 ∷ 20 ∷ 48 ∷ 234 ∷ 33 ∷ 12 ∷ 134 ∷ 60 ∷ 23 ∷ 98 ∷ 76 ∷ 4 ∷ 148
    ∷ 205 ∷ 234 ∷ 216 ∷ 31 ∷ 82 ∷ 52 ∷ 48 ∷ 181 ∷ 247 ∷ 76 ∷ 21 ∷ 218 ∷ 50 ∷ 61 ∷ 118 ∷ 107 ∷ 208
    ∷ 28 ∷ 181 ∷ 184 ∷ 139 ∷ 157 ∷ 42 ∷ 115 ∷ 31 ∷ 109 ∷ 133 ∷ 51 ∷ 128 ∷ 173 ∷ 48 ∷ 106 ∷ 134 ∷ 71
    ∷ 250 ∷ 97 ∷ 76 ∷ 196 ∷ 1 ∷ 127 ∷ 8 ∷ 144 ∷ 44 ∷ 30 ∷ 31 ∷ 153 ∷ 126 ∷ 225 ∷ 46 ∷ 60 ∷ []

abbrev pub performance_passcode_key_salt : List ℕ
performance_passcode_key_salt =
    174 ∷ 209 ∷ 224 ∷ 130 ∷ 153 ∷ 66 ∷ 129 ∷ 217 ∷ 117 ∷ 118 ∷ 14 ∷ 114 ∷ 149 ∷ 96 ∷ 210 ∷ 200 ∷ 208
    ∷ 8 ∷ 242 ∷ 169 ∷ 221 ∷ 63 ∷ 244 ∷ 216 ∷ 50 ∷ 69 ∷ 226 ∷ 46 ∷ 237 ∷ 182 ∷ 103 ∷ 22 ∷ []

abbrev pub performance_passcode_key : List ℕ
performance_passcode_key =
    39 ∷ 62 ∷ 100 ∷ 131 ∷ 179 ∷ 19 ∷ 201 ∷ 219 ∷ 196 ∷ 172 ∷ 217 ∷ 23 ∷ 56 ∷ 100 ∷ 192 ∷ 66 ∷ 47
    ∷ 23 ∷ 40 ∷ 129 ∷ 191 ∷ 225 ∷ 198 ∷ 100 ∷ 156 ∷ 165 ∷ 83 ∷ 134 ∷ 84 ∷ 208 ∷ 189 ∷ 110 ∷ 188
    ∷ 251 ∷ 204 ∷ 141 ∷ 171 ∷ 187 ∷ 102 ∷ 151 ∷ 23 ∷ 206 ∷ 83 ∷ 180 ∷ 28 ∷ 168 ∷ 175 ∷ 191 ∷ 157
    ∷ 21 ∷ 194 ∷ 63 ∷ 162 ∷ 176 ∷ 106 ∷ 110 ∷ 22 ∷ 108 ∷ 198 ∷ 31 ∷ 98 ∷ 233 ∷ 152 ∷ 5 ∷ 88 ∷ 205
    ∷ 66 ∷ 207 ∷ 16 ∷ 34 ∷ 224 ∷ 91 ∷ 70 ∷ 104 ∷ 17 ∷ 234 ∷ 41 ∷ 233 ∷ 53 ∷ 159 ∷ 193 ∷ 249 ∷ 70
    ∷ 104 ∷ 229 ∷ 200 ∷ 81 ∷ 85 ∷ 188 ∷ 230 ∷ 56 ∷ 254 ∷ 122 ∷ 164 ∷ 42 ∷ 168 ∷ 128 ∷ 202 ∷ 131
    ∷ 224 ∷ 210 ∷ 229 ∷ 52 ∷ 25 ∷ 138 ∷ 10 ∷ 137 ∷ 1 ∷ 57 ∷ 200 ∷ 246 ∷ 121 ∷ 165 ∷ 125 ∷ 59 ∷ 160
    ∷ 109 ∷ 117 ∷ 254 ∷ 95 ∷ 170 ∷ 110 ∷ 37 ∷ 1 ∷ 1 ∷ 165 ∷ 139 ∷ 198 ∷ 228 ∷ 43 ∷ 150 ∷ 150 ∷ 96
    ∷ 77 ∷ 225 ∷ 227 ∷ 74 ∷ 228 ∷ 15 ∷ 107 ∷ 186 ∷ 20 ∷ 74 ∷ 40 ∷ 79 ∷ 58 ∷ 216 ∷ 132 ∷ 50 ∷ 83
    ∷ 236 ∷ 155 ∷ 57 ∷ 113 ∷ 134 ∷ 58 ∷ 44 ∷ 64 ∷ 146 ∷ 8 ∷ 194 ∷ 86 ∷ 57 ∷ 103 ∷ 179 ∷ 88 ∷ 126
    ∷ 80 ∷ 155 ∷ 66 ∷ 164 ∷ 42 ∷ 96 ∷ 64 ∷ 210 ∷ 63 ∷ 246 ∷ 150 ∷ 173 ∷ 85 ∷ 42 ∷ 36 ∷ 0 ∷ 132 ∷ 250
    ∷ 63 ∷ 149 ∷ 2 ∷ 64 ∷ 244 ∷ 153 ∷ 178 ∷ 60 ∷ 214 ∷ 210 ∷ 126 ∷ 112 ∷ 16 ∷ 203 ∷ 222 ∷ 7 ∷ 218
    ∷ 174 ∷ 6 ∷ 103 ∷ 167 ∷ 223 ∷ 138 ∷ 81 ∷ 21 ∷ 166 ∷ 11 ∷ 38 ∷ 92 ∷ 88 ∷ 245 ∷ 217 ∷ 41 ∷ 31
    ∷ 122 ∷ 152 ∷ 252 ∷ 60 ∷ 96 ∷ 30 ∷ 42 ∷ 74 ∷ 50 ∷ 241 ∷ 136 ∷ 27 ∷ 130 ∷ 24 ∷ 200 ∷ 85 ∷ 35
    ∷ 157 ∷ 123 ∷ 83 ∷ 41 ∷ 89 ∷ 96 ∷ 158 ∷ 106 ∷ 181 ∷ 46 ∷ 72 ∷ 173 ∷ 105 ∷ 28 ∷ 37 ∷ 131 ∷ 181
    ∷ 102 ∷ 200 ∷ 249 ∷ []

abbrev pub performance_passcode_key_encrypted : List ℕ
performance_passcode_key_encrypted =
    151 ∷ 223 ∷ 12 ∷ 210 ∷ 227 ∷ 16 ∷ 145 ∷ 73 ∷ 183 ∷ 123 ∷ 82 ∷ 135 ∷ 153 ∷ 77 ∷ 156 ∷ 28 ∷ 162
    ∷ 64 ∷ 197 ∷ 30 ∷ 135 ∷ 72 ∷ 142 ∷ 121 ∷ 221 ∷ 2 ∷ 155 ∷ 234 ∷ 101 ∷ 251 ∷ 157 ∷ 39 ∷ 137 ∷ 187
    ∷ 90 ∷ 188 ∷ 254 ∷ 101 ∷ 232 ∷ 113 ∷ 215 ∷ 82 ∷ 189 ∷ 147 ∷ 141 ∷ 131 ∷ 49 ∷ 60 ∷ 121 ∷ 76 ∷ 137
    ∷ 147 ∷ 167 ∷ 52 ∷ 206 ∷ 18 ∷ 22 ∷ 242 ∷ 230 ∷ 96 ∷ 71 ∷ 63 ∷ 49 ∷ 67 ∷ 175 ∷ 154 ∷ 51 ∷ 54 ∷ 16
    ∷ 161 ∷ 121 ∷ 149 ∷ 135 ∷ 110 ∷ 23 ∷ 33 ∷ 206 ∷ 31 ∷ 97 ∷ 29 ∷ 28 ∷ 105 ∷ 216 ∷ 193 ∷ 162 ∷ 245
    ∷ 159 ∷ 148 ∷ 147 ∷ 17 ∷ 151 ∷ 4 ∷ 39 ∷ 78 ∷ 44 ∷ 181 ∷ 243 ∷ 108 ∷ 32 ∷ 223 ∷ 67 ∷ 157 ∷ 21
    ∷ 109 ∷ 239 ∷ 247 ∷ 163 ∷ 67 ∷ 113 ∷ 220 ∷ 68 ∷ 188 ∷ 134 ∷ 248 ∷ 115 ∷ 12 ∷ 235 ∷ 249 ∷ 176
    ∷ 40 ∷ 235 ∷ 122 ∷ 30 ∷ 214 ∷ 98 ∷ 29 ∷ 153 ∷ 173 ∷ 182 ∷ 43 ∷ 59 ∷ 44 ∷ 242 ∷ 41 ∷ 93 ∷ 187
    ∷ 178 ∷ 75 ∷ 241 ∷ 50 ∷ 211 ∷ 127 ∷ 255 ∷ 193 ∷ 122 ∷ 11 ∷ 220 ∷ 204 ∷ 132 ∷ 187 ∷ 234 ∷ 110
    ∷ 163 ∷ 71 ∷ 55 ∷ 162 ∷ 54 ∷ 181 ∷ 130 ∷ 72 ∷ 167 ∷ 171 ∷ 76 ∷ 20 ∷ 54 ∷ 60 ∷ 32 ∷ 84 ∷ 28 ∷ 180
    ∷ 83 ∷ 56 ∷ 103 ∷ 127 ∷ 51 ∷ 151 ∷ 130 ∷ 178 ∷ 5 ∷ 227 ∷ 85 ∷ 24 ∷ 150 ∷ 88 ∷ 221 ∷ 69 ∷ 234
    ∷ 62 ∷ 128 ∷ 5 ∷ 248 ∷ 81 ∷ 20 ∷ 142 ∷ 126 ∷ 21 ∷ 244 ∷ 49 ∷ 144 ∷ 79 ∷ 167 ∷ 156 ∷ 104 ∷ 39
    ∷ 238 ∷ 66 ∷ 109 ∷ 58 ∷ 185 ∷ 203 ∷ 169 ∷ 54 ∷ 235 ∷ 51 ∷ 212 ∷ 133 ∷ 219 ∷ 136 ∷ 166 ∷ 240
    ∷ 255 ∷ 151 ∷ 34 ∷ 166 ∷ 214 ∷ 47 ∷ 247 ∷ 136 ∷ 52 ∷ 126 ∷ 39 ∷ 200 ∷ 46 ∷ 158 ∷ 19 ∷ 158 ∷ 176
    ∷ 58 ∷ 229 ∷ 33 ∷ 83 ∷ 155 ∷ 243 ∷ 211 ∷ 99 ∷ 180 ∷ 186 ∷ 234 ∷ 118 ∷ 229 ∷ 232 ∷ 132 ∷ 207
    ∷ 102 ∷ 254 ∷ 107 ∷ 205 ∷ 138 ∷ 158 ∷ 8 ∷ 157 ∷ 54 ∷ 64 ∷ 93 ∷ 185 ∷ 157 ∷ 1 ∷ 219 ∷ 32 ∷ 70
    ∷ 79 ∷ 182 ∷ 202 ∷ 187 ∷ 220 ∷ 228 ∷ 246 ∷ 126 ∷ 78 ∷ 195 ∷ 116 ∷ 47 ∷ 145 ∷ 58 ∷ 29 ∷ 210 ∷ 218
    ∷ 197 ∷ []
